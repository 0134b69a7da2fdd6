-- ===== src/Cas/Predicted.antt =====
-- The estimate of core/src/world/cas.rs is what the transaction then prunes.
use audite_db.Prelude.{
  ℕ, ◌+◌, ◌-◌, ◌≡◌, refl, sym, ap, ◌∙◌, subst, ◌≤◌, ◌<◌, true, some, List, [], ◌∷◌, ◌++◌, ok, inl,
  inr, any, filter, head, Bool-cases, last_n, length, length-append, leb, ltb, arith, if◌then◌else◌,
  ltb→lt,
}
use audite_db.Prelude.Text.{Bytes}
use audite_db.Prelude.Int.{ltb_ℤ, leb_ℤ, eq_ℤ, eq_ℤ_iff}
use audite_db.Prelude.Parse.{i64_max}
use audite_db.Timeline.{Crypto, body_sha256_for}
use audite_db.Audit.Events.{EventRow}
use audite_db.Audit.Retention.{WorldDb, is_body_row}
use audite_db.Cas.{insert_missing, body_rows, is_candidate, total_len, is_above, prune_to_count}
use audite_db.Cas.Estimates.{
  next_event_id, retained_floor_after_next_body, is_prunable, prunable_body_len_after_next_body,
}
use audite_db.Cas.Sums.{any-append, total_len-filter_eq}
use audite_db.Cas.Order.{
  Rising, Under, head-least, last_n-one, head-last_n, last_n-all, All-filter, head-drop-some,
  head-append, Rising-filter, Rising-append, leb_ℤ-refl, leb_ℤ-lt,
}
use audite_db.Cas.Outcomes.{
  prune_to_count-bytes, prune_to_count-fits, estimate-few, estimate-floor, estimate-ok, floor-one,
  floor-more,
}
use audite_db.Cas.Exact.{grown, body_rows-grown, total_len-grown}
use audite_db.Cas.Pruned.{
  Marked-exists, any-Under, is_prunable-Under, nothing_named, next_event_id-Under,
  next_event_id-least, Write,
}

module _ (c : Crypto) (db db1 db2 db3 : WorldDb) (body : Bytes) (n estimate bytes : ℕ)
    (w : Write c db db1 db2 body)
    (estimated : prunable_body_len_after_next_body c db body n ≡ ok estimate)
    (pruned : prune_to_count n db2 ≡ ok (bytes, db3)) where
  abbrev newer : List EventRow
  newer = body_rows db.events ++ w.row ∷ []

  body_rows-after : body_rows db2.events ≡ newer
  body_rows-after =
      ap (λ d. body_rows d.events) w.marked.tables
      ∙ ap body_rows w.events
      ∙ body_rows-grown db.events w.extra w.row w.rows

  floor-among : any (λ row. eq_ℤ row.id w.marked.floor) newer ≡ true
  floor-among =
      subst (λ rows. any (λ row. eq_ℤ row.id w.marked.floor) rows ≡ true)
        (ap body_rows w.events ∙ body_rows-grown db.events w.extra w.row w.rows)
        (Marked-exists w.row.id db1 db2 w.marked)

  floor-after : db2.first_retained ≡ some w.marked.floor
  floor-after = ap (λ d. d.first_retained) w.marked.tables

  -- What the prune deletes below a floor, in terms of the tables before.
  bytes-below :
      (oldest : EventRow)
      → head (last_n n newer) ≡ some oldest
      → leb_ℤ oldest.id w.row.id ≡ true
      → bytes ≡ (
          if is_above oldest.id (some w.marked.floor)
          then total_len
              (filter (is_prunable db.events oldest.id (body_sha256_for c body)) db.cas_bodies)
          else 0)
  bytes-below oldest h low =
      let events : db2.events ≡ grown db.events w.extra w.row =
        ap (λ d. d.events) w.marked.tables ∙ w.events in
      let bodies : db2.cas_bodies ≡ (insert_missing w.row.body_sha256 body db.cas_bodies).1 =
        ap (λ d. d.cas_bodies) w.marked.tables
        ∙ w.bodies
        ∙ ap (λ k. (insert_missing k body db.cas_bodies).1) (sym w.named) in
      let same : total_len (filter (is_candidate db2.events oldest.id) db2.cas_bodies)
          ≡ total_len
              (filter (is_prunable db.events oldest.id (body_sha256_for c body)) db.cas_bodies) =
        ap (λ e. total_len (filter (is_candidate e oldest.id) db2.cas_bodies)) events
        ∙ ap (λ m. total_len (filter (is_candidate (grown db.events w.extra w.row) oldest.id) m))
            bodies
        ∙ total_len-grown db.events w.extra w.row w.rows oldest.id body db.cas_bodies low
        ∙ ap (λ k. total_len (filter (is_prunable db.events oldest.id k) db.cas_bodies)) w.named in
      prune_to_count-bytes n db2 db3 w.marked.floor bytes oldest floor-after
        (ap (λ rows. head (last_n n rows)) body_rows-after ∙ h) pruned
      ∙ ap (λ k. if is_above oldest.id (some w.marked.floor) then k else 0) same

  Under-bodies : Under w.row.id (body_rows db.events)
  Under-bodies = All-filter (λ r. ltb_ℤ r.id w.row.id ≡ true) is_body_row db.events w.rows.under

  Rising-newer : Rising newer
  Rising-newer =
      Rising-append (body_rows db.events) w.row (Rising-filter is_body_row db.events w.rows.rising)
        Under-bodies

  newest-among : any (λ r. eq_ℤ r.id w.row.id) newer ≡ true
  newest-among = ground (
    arith,
    any-append (λ r. eq_ℤ r.id w.row.id) (body_rows db.events) (w.row ∷ []),
    (eq_ℤ_iff w.row.id w.row.id).1 refl,
  )

  fits : leb n i64_max ≡ true
  fits = prune_to_count-fits n db2 db3 bytes pruned

  few : length (body_rows db.events) + 1 < n → estimate ≡ bytes
  few h =
      let (oldest, e) = head-append (body_rows db.events) w.row in
      let all : last_n n newer ≡ newer =
        last_n-all n newer (omega (arith, length-append (body_rows db.events) (w.row ∷ []))) in
      ground (
        arith,
        estimate-few c db body n estimate h fits estimated,
        bytes-below oldest (ap head all ∙ e)
            (head-least newer oldest w.row.id Rising-newer e newest-among),
        head-least newer oldest w.marked.floor Rising-newer e floor-among,
      )

  -- A retention that starts has no body event before.
  none-before :
      (first : EventRow)
      → head (body_rows db1.events) ≡ some first
      → first.id ≡ w.row.id
      → body_rows db.events ≡ []
  none-before first h i =
      only (body_rows db.events) Under-bodies
        (sym (ap head (ap body_rows w.events ∙ body_rows-grown db.events w.extra w.row w.rows)) ∙ h)
    where
      only :
          (rows : List EventRow)
          → Under w.row.id rows
          → head (rows ++ w.row ∷ []) ≡ some first
          → rows ≡ []
      only [] u e = refl
      only (r ∷ rows) u e =
          let same : r.id ≡ w.row.id = ground arith in absurd (ground (arith, u.0))

  one : n ≡ 1 → estimate ≡ bytes
  one single =
      let (r, found) = estimate-ok c db body n estimate estimated in
      let next = next_event_id db.events in
      let key = body_sha256_for c body in
      let floor : r ≡ some next =
        floor-one db.events r
          (subst (λ k. retained_floor_after_next_body db.events k ≡ ok r) single found) in
      let expected = estimate-floor c db body n estimate next (found ∙ ap ok floor) estimated in
      let actual =
        bytes-below w.row
          (ap (λ k. head (last_n k newer)) single
            ∙ ap head (last_n-one (body_rows db.events) w.row))
          (leb_ℤ-refl w.row.id) in
      let under = next_event_id-Under db.events w.rows.rising in
      let least = next_event_id-least db.events w.row.id w.rows.under w.rows.positive in
      let same =
        total_len-filter_eq (is_prunable db.events next key) (is_prunable db.events w.row.id key)
          db.cas_bodies (λ e. is_prunable-Under next w.row.id key db.events e under w.rows.under) in
      elim w.marked.before [
        | inl b ↦ ground (
          arith,
          expected,
          actual,
          same,
          least,
          w.floor,
          b.0,
          floor-among,
          any-append (λ r. eq_ℤ r.id w.marked.floor) (body_rows db.events) (w.row ∷ []),
          eq_ℤ_iff w.row.id w.marked.floor,
          any-Under next w.marked.floor (body_rows db.events)
              (All-filter (λ r. ltb_ℤ r.id next ≡ true) is_body_row db.events under),
          any-Under w.row.id w.marked.floor (body_rows db.events) Under-bodies,
        )
        | inr b ↦ ground (
          arith,
          expected,
          actual,
          w.floor,
          b.0,
          b.1,
          leb_ℤ-refl w.row.id,
          nothing_named next key db.events db.cas_bodies (none-before b.2.0 b.2.1 b.2.2),
        )
      ]

  more : 2 ≤ n → n ≤ length (body_rows db.events) + 1 → estimate ≡ bytes
  more low high =
      let (oldest, e, before) =
        head-drop-some (λ r. ltb_ℤ r.id w.row.id ≡ true) (length (body_rows db.events) - (n - 1))
          (body_rows db.events) (omega arith) Under-bodies in
      let (r, found) = estimate-ok c db body n estimate estimated in
      let floor = floor-more db.events n oldest r fits low high e found in
      let expected =
        estimate-floor c db body n estimate oldest.id (found ∙ ap ok floor) estimated in
      let actual =
        bytes-below oldest (head-last_n n (body_rows db.events) w.row low high ∙ e)
          (leb_ℤ-lt oldest.id w.row.id before) in
      elim w.marked.before [
        | inl b ↦ ground (arith, expected, actual, w.floor, b.0)
        | inr b ↦
            let empty = none-before b.2.0 b.2.1 b.2.2 in
            let short : length (body_rows db.events) ≡ 0 = ap length empty in
            absurd (omega (arith, short, low, high))
      ]

  -- What a write prunes is what was estimated before its transaction, to the byte.
  pub estimate-bytes : 1 ≤ n → estimate ≡ bytes
  estimate-bytes positive = elim (Bool-cases (ltb (length (body_rows db.events) + 1) n)) [
    | inl h ↦ few (ltb→lt (length (body_rows db.events) + 1) n h)
    | inr h ↦ elim (Bool-cases (ltb 1 n)) [
      | inl k ↦ more (ground arith) (ground arith)
      | inr k ↦ one (ground arith)
    ]
  ]
