-- ===== src/Cas/Exact.antt =====
-- The estimate of core/src/world/cas.rs against what the transaction then does.
use audite_db.Prelude.{
  ◌≡◌, refl, ap, ◌∙◌, Bool, true, false, not, ◌&&◌, ◌||◌, List, [], ◌∷◌, ◌++◌, append-nil, any,
  filter, arith,
}
use audite_db.Prelude.Text.{Bytes, eq_bytes, eq_bytes_refl}
use audite_db.Prelude.Int.{ℤ, pos, ltb_ℤ, leb_ℤ}
use audite_db.Audit.Events.{EventRow}
use audite_db.Audit.Retention.{is_body_row}
use audite_db.Cas.{insert_missing, body_rows, named_below, named_from, is_candidate, total_len}
use audite_db.Cas.Estimates.{is_prunable}
use audite_db.Cas.Sums.{any-append, filter-append, total_len-filter_eq, filter-insert_missing}
use audite_db.Cas.Order.{Rising, Under}

-- The rows that a write adds: no body event, and then one under a higher id.
pub record Grown (events extra : List EventRow) (row : EventRow) : Type 0 where
  pub rising : Rising events
  pub plain : body_rows extra ≡ []
  pub bodied : is_body_row row ≡ true
  pub under : Under row.id events
  pub positive : leb_ℤ (pos 1) row.id ≡ true

abbrev pub grown : List EventRow → List EventRow → EventRow → List EventRow
grown events extra row = (events ++ extra) ++ row ∷ []

pub any-plain :
    (p : EventRow → Bool) (rows : List EventRow)
    → body_rows rows ≡ []
    → any (λ row. is_body_row row && p row) rows ≡ false
any-plain p [] h = refl
any-plain p (row ∷ rows) h = ground (arith, any-plain p rows)

pub any-rows :
    (p : EventRow → Bool) (rows : List EventRow)
    → any (λ row. p row && is_body_row row) rows ≡ any p (body_rows rows)
any-rows p [] = refl
any-rows p (row ∷ rows) = ground (arith, any-rows p rows)

module _ (events extra : List EventRow) (row : EventRow) (g : Grown events extra row) where
  pub body_rows-grown : body_rows (grown events extra row) ≡ body_rows events ++ row ∷ []
  body_rows-grown =
      filter-append is_body_row (events ++ extra) (row ∷ [])
      ∙ ground (
        arith,
        filter-append is_body_row events extra,
        g.plain,
        g.bodied,
        append-nil (body_rows events),
      )

  any-grown :
      (p : EventRow → Bool)
      → any (λ r. is_body_row r && p r) (grown events extra row)
        ≡ (any (λ r. is_body_row r && p r) events || p row)
  any-grown p =
      any-append (λ r. is_body_row r && p r) (events ++ extra) (row ∷ [])
      ∙ ground (
        arith,
        any-append (λ r. is_body_row r && p r) events extra,
        any-plain p extra g.plain,
        g.bodied,
      )

  named_below-grown :
      (floor : ℤ) (key : Bytes)
      → leb_ℤ floor row.id ≡ true
      → named_below (grown events extra row) floor key ≡ named_below events floor key
  unfolding named_below
  named_below-grown floor key h =
      ground (arith, any-grown (λ r. ltb_ℤ r.id floor && eq_bytes key r.body_sha256))

  pub named_from-grown :
      (floor : ℤ) (key : Bytes)
      → leb_ℤ floor row.id ≡ true
      → named_from (grown events extra row) floor key
        ≡ (named_from events floor key || eq_bytes key row.body_sha256)
  unfolding named_from
  named_from-grown floor key h =
      ground (arith, any-grown (λ r. not (ltb_ℤ r.id floor) && eq_bytes key r.body_sha256))

  is_candidate-grown :
      (floor : ℤ) (e : Bytes × Bytes)
      → leb_ℤ floor row.id ≡ true
      → is_candidate (grown events extra row) floor e ≡ is_prunable events floor row.body_sha256 e
  is_candidate-grown floor e h =
      ground (arith, named_below-grown floor e.0 h, named_from-grown floor e.0 h)

  -- What is pruned is what was to be pruned, since the new body is not.
  pub total_len-grown :
      (floor : ℤ) (body : Bytes) (m : List (Bytes × Bytes))
      → leb_ℤ floor row.id ≡ true
      → total_len (
          filter
            (is_candidate (grown events extra row) floor)
            (insert_missing row.body_sha256 body m).1)
        ≡ total_len (filter (is_prunable events floor row.body_sha256) m)
  total_len-grown floor body m h =
      let own : is_candidate (grown events extra row) floor (row.body_sha256, []) ≡ false =
        ground (
          arith,
          is_candidate-grown floor (row.body_sha256, []) h,
          eq_bytes_refl row.body_sha256,
        ) in
      ap total_len (
        filter-insert_missing (λ k. is_candidate (grown events extra row) floor (k, []))
          row.body_sha256 body m own)
      ∙ total_len-filter_eq (is_candidate (grown events extra row) floor)
          (is_prunable events floor row.body_sha256) m (λ e. is_candidate-grown floor e h)
