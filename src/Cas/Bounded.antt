-- ===== src/Cas/Bounded.antt =====
-- How a write and its prune of core/src/world/cas.rs move the window of retained bodies.
use audite_db.Prelude.{
  some-injective, ℕ, zero, suc, ◌-◌, ◌≤◌, ◌<◌, head, drop, last_n, length-append, ◌≢◌, ◌≡◌, refl,
  sym, ap, ◌∙◌, subst, true, false, not, none, some, List, [], ◌∷◌, ◌++◌, All, All-append, filter,
  length, ◌⊎◌, inl, inr, Bool-cases, ok, arith,
}
use audite_db.Prelude.Assoc.{lookup}
use audite_db.Prelude.Text.{Bytes, eq_bytes_refl}
use audite_db.Prelude.Int.{ℤ, pos, ltb_ℤ, leb_ℤ}
use audite_db.Timeline.{Crypto, body_sha256_for}
use audite_db.Audit.Events.{EventRow}
use audite_db.Audit.Retention.{WorldDb, is_body_row}
use audite_db.Cas.{insert_missing, body_rows, named_from, is_candidate, is_above, prune_to_count}
use audite_db.Cas.Exact.{grown, body_rows-grown, named_from-grown}
use audite_db.Cas.Order.{leb_ℤ-refl}
use audite_db.Cas.Outcomes.{nothing_pruned, raised, prune_to_count-Outcome}
use audite_db.Cas.Pruned.{Write}
use audite_db.Cas.Window.{
  Held, Needs, Kept, Named, Window, unstarted, started, higher_floor, Bounded, All-map, All-both,
  filter-All, insert_missing-All, lookup-filter, lookup-insert_missing, Names, named_from-member,
  named_from-split,
}

All-plain :
    (P : EventRow → Type 0) (rows : List EventRow)
    → body_rows rows ≡ []
    → All (λ row. is_body_row row ≡ true → P row) rows
All-plain P [] h = tt
All-plain P (row ∷ rows) h = elim (Bool-cases (is_body_row row)) [
  | inl b ↦ absurd (cons-ne-nil (ground arith))
  | inr b ↦ ((λ k. absurd (cc)), All-plain P rows (ground arith))
]
  where
    cons-ne-nil : row ∷ body_rows rows ≢ []
    cons-ne-nil e = cc

-- A prune keeps the bodies from the new floor on.
Kept-pruned :
    (events : List EventRow) (floor higher : ℤ) (cas : List (Bytes × Bytes))
    → leb_ℤ higher floor ≡ false
    → Kept events floor cas
    → Kept events higher (filter (λ e. not (is_candidate events higher e)) cas)
Kept-pruned events floor higher cas up kept =
    All-both (Names events higher) (Needs floor cas)
      (Needs higher (filter (λ e. not (is_candidate events higher e)) cas)) events
      (λ row names needs b l.
        let held = needs b (lower row.id floor higher up l) in
        record {
          body = held.body;
          found =
              lookup-filter (λ k. not (is_candidate events higher (k, []))) row.body_sha256 cas
                (shown row (names b l))
              ∙ held.found;
          sized = held.sized;
        })
      (named_from-member events higher) kept
  where
    lower :
        (id floor higher : ℤ)
        → leb_ℤ higher floor ≡ false
        → ltb_ℤ id higher ≡ false
        → ltb_ℤ id floor ≡ false
    lower id floor higher up l = ground arith

    shown :
        (row : EventRow)
        → named_from events higher row.body_sha256 ≡ true
        → not (is_candidate events higher (row.body_sha256, [])) ≡ true
    shown row h = ground arith

-- A prune leaves no body that is not named from the new floor on.
Named-pruned :
    (events : List EventRow) (floor higher : ℤ) (cas : List (Bytes × Bytes))
    → Named events floor cas
    → Named events higher (filter (λ e. not (is_candidate events higher e)) cas)
Named-pruned events floor higher cas named =
    filter-All (λ e. named_from events floor e.0 ≡ true) (λ e. named_from events higher e.0 ≡ true)
      (λ e. not (is_candidate events higher e)) cas
      (λ e h k. ground (arith, named_from-split events floor higher e.0 h)) named

-- What a prune leaves, from a window that begins at a floor.
record PrunedTo (n : ℕ) (floor : ℤ) (oldest : EventRow) (db db' : WorldDb) : Type 0 where
  window : Window db'
  events : db'.events ≡ db.events
  begins : db'.first_retained ≡ some (higher_floor (some floor) oldest.id)

prune_to_count-PrunedTo :
    (n bytes : ℕ) (db db' : WorldDb) (floor : ℤ) (oldest : EventRow)
    → head (last_n n (body_rows db.events)) ≡ some oldest
    → db.first_retained ≡ some floor
    → Kept db.events floor db.cas_bodies
    → Named db.events floor db.cas_bodies
    → prune_to_count n db ≡ ok (bytes, db')
    → PrunedTo n floor oldest db db'
prune_to_count-PrunedTo n bytes db db' floor oldest is e kept named h =
    elim (prune_to_count-Outcome n db db' bytes h) [
      | nothing_pruned zero_bytes same low ↦ subst (PrunedTo n floor oldest db) (sym same) (record {
        window = started floor e kept named;
        events = refl;
        begins = e ∙ ap some (stays (low oldest is));
      })
      | raised row at above sum same ↦ subst (PrunedTo n floor oldest db) (sym same) (record {
        window =
            started row.id refl
              (Kept-pruned db.events floor row.id db.cas_bodies (higher row.id above) kept)
              (Named-pruned db.events floor row.id db.cas_bodies named);
        events = refl;
        begins = ap some (rises row (higher row.id above) (some-injective (sym at ∙ is)));
      })
    ]
  where
    higher : (id : ℤ) → is_above id db.first_retained ≡ true → leb_ℤ id floor ≡ false
    higher id above = ground arith

    stays :
        is_above oldest.id db.first_retained ≡ false → floor ≡ higher_floor (some floor) oldest.id
    stays low = ground arith

    rises :
        (row : EventRow)
        → leb_ℤ row.id floor ≡ false
        → row ≡ oldest
        → row.id ≡ higher_floor (some floor) oldest.id
    rises row above k = ground (arith, ap (λ x. x.id) k)

head-drop-exists {ℓ} :
    {A : Type ℓ} (k : ℕ) (xs : List A) → k < length xs → (x : A) × (head (drop k xs) ≡ some x)
head-drop-exists k [] h = absurd (omega arith)
head-drop-exists zero (x ∷ xs) h = (x, refl)
head-drop-exists (suc k) (x ∷ xs) h = head-drop-exists k xs (omega arith)

last_n-only {ℓ} : {A : Type ℓ} (n : ℕ) (x y : A) → 1 ≤ n → head (last_n n (x ∷ [])) ≡ some y → x ≡ y
last_n-only n x y h e =
    let all : 1 - n ≡ 0 = omega arith in
    some-injective (sym (ap (λ k. head (drop k (x ∷ []))) all) ∙ e)

-- The window at a floor, of either kind of start.
record At (db : WorldDb) (floor : ℤ) (id : ℤ) : Type 0 where
  kept : Kept db.events floor db.cas_bodies
  named : Named db.events floor db.cas_bodies
  low : leb_ℤ floor id ≡ true

Marked-At :
    (id floor : ℤ) (db : WorldDb)
    → Window db
    → ((db.first_retained ≡ some floor) × (leb_ℤ floor id ≡ true))
      ⊎ ((db.first_retained ≡ none) × (floor ≡ id))
    → At db floor id
Marked-At id floor db (unstarted e nothing plain) m = record {
  kept = All-plain (λ row. ltb_ℤ row.id floor ≡ false → Held db.cas_bodies row) db.events plain;
  named = subst (λ cas. Named db.events floor cas) (sym nothing) tt;
  low = elim m [ inl b ↦ b.1 | inr b ↦ subst (λ f. leb_ℤ f id ≡ true) (sym b.1) (leb_ℤ-refl id) ];
}
Marked-At id floor db (started f e kept named) m = elim m [
  | inl b ↦
      let same : f ≡ floor = some-injective (sym e ∙ b.0) in
      record {
        kept = subst (λ x. Kept db.events x db.cas_bodies) same kept;
        named = subst (λ x. Named db.events x db.cas_bodies) same named;
        low = b.1;
      }
  | inr b ↦ absurd (some-ne-none (sym e ∙ b.0))
]
  where
    some-ne-none : {x : ℤ} → some x ≢ none
    some-ne-none k = cc

module _ (c : Crypto) (db db1 db2 : WorldDb) (body : Bytes) (w : Write c db db1 db2 body)
    (sized : w.row.size ≡ pos (length body))
    (stored : (b : Bytes) × (lookup
          (body_sha256_for c body)
          (insert_missing (body_sha256_for c body) body db.cas_bodies).1
        ≡ some b)
      × (length b ≡ length body)) where
  abbrev floor : ℤ
  floor = w.marked.floor

  abbrev cas : List (Bytes × Bytes)
  cas = (insert_missing (body_sha256_for c body) body db.cas_bodies).1

  before : Window db → At db floor w.row.id
  before v = Marked-At w.row.id floor db v (elim w.marked.before [
    | inl b ↦ inl (sym w.floor ∙ b.0, b.2)
    | inr b ↦ inr (sym w.floor ∙ b.0, b.1)
  ])

  Kept-after : At db floor w.row.id → Kept (grown db.events w.extra w.row) floor cas
  Kept-after a =
      All-append (Needs floor cas) (db.events ++ w.extra) (w.row ∷ [])
        (All-append (Needs floor cas) db.events w.extra
          (All-map (Needs floor db.cas_bodies) (Needs floor cas) db.events
            (λ row h b l.
              let held = h b l in
              record {
                body = held.body;
                found =
                    lookup-insert_missing (body_sha256_for c body) row.body_sha256 body held.body
                      db.cas_bodies held.found;
                sized = held.sized;
              })
            a.kept)
          (All-plain (λ row. ltb_ℤ row.id floor ≡ false → Held cas row) w.extra w.rows.plain))
        (
          λ b l. record {
            body = stored.0;
            found = ap (λ k. lookup k cas) w.named ∙ stored.1;
            sized = sized ∙ ap pos (sym stored.2);
          },
          tt,
        )

  Named-after : At db floor w.row.id → Named (grown db.events w.extra w.row) floor cas
  Named-after a =
      let P = λ (key : Bytes). named_from (grown db.events w.extra w.row) floor key ≡ true in
      insert_missing-All P (body_sha256_for c body) body db.cas_bodies
        (named_from-grown db.events w.extra w.row w.rows floor (body_sha256_for c body) a.low
          ∙ ground (arith, w.named, eq_bytes_refl (body_sha256_for c body)))
        (All-map (λ e. named_from db.events floor e.0 ≡ true) (λ e. P e.0) db.cas_bodies
          (λ e h.
            named_from-grown db.events w.extra w.row w.rows floor e.0 a.low ∙ ground (arith, h))
          a.named)

  bodies_before : Window db → db.first_retained ≡ none → body_rows db.events ≡ []
  bodies_before (unstarted e nothing plain) h = plain
  bodies_before (started f e kept named) h = absurd (some-ne-none (sym e ∙ h))
    where
      some-ne-none : {x : ℤ} → some x ≢ none
      some-ne-none k = cc

  -- The floor from which the prune goes on leads where that of before does.
  same_beginning :
      (n : ℕ) (oldest : EventRow)
      → 1 ≤ n
      → Window db
      → head (last_n n (body_rows db.events ++ w.row ∷ [])) ≡ some oldest
      → higher_floor (some floor) oldest.id ≡ higher_floor db.first_retained oldest.id
  same_beginning n oldest some_retained v is = elim w.marked.before [
    | inl b ↦ ap (λ f. higher_floor f oldest.id) (sym (sym w.floor ∙ b.0))
    | inr b ↦
        let fresh = sym w.floor ∙ b.0 in
        let only =
          last_n-only n w.row oldest some_retained (
            ap (λ rows. head (last_n n (rows ++ w.row ∷ []))) (sym (bodies_before v fresh)) ∙ is) in
        ground (arith, b.1, fresh, ap (λ r. r.id) only)
  ]

  -- A write and its prune, from a window to the one that is retained.
  pub Write-Bounded :
      (n bytes : ℕ) (db3 : WorldDb)
      → 1 ≤ n
      → Window db
      → prune_to_count n db2 ≡ ok (bytes, db3)
      → Bounded n db db3
  Write-Bounded n bytes db3 some_retained v h =
      let a = before v in
      let newer = body_rows db.events ++ w.row ∷ [] in
      let (oldest, is) =
        head-drop-exists (length newer - n) newer
          (omega (arith, length-append (body_rows db.events) (w.row ∷ []))) in
      let events : db2.events ≡ grown db.events w.extra w.row =
        ap (λ d. d.events) w.marked.tables ∙ w.events in
      let bodies : db2.cas_bodies ≡ cas = ap (λ d. d.cas_bodies) w.marked.tables ∙ w.bodies in
      let rows : body_rows db2.events ≡ newer =
        ap body_rows events ∙ body_rows-grown db.events w.extra w.row w.rows in
      let pruned =
        prune_to_count-PrunedTo n bytes db2 db3 floor oldest (ap (λ r. head (last_n n r)) rows ∙ is)
          (ap (λ d. d.first_retained) w.marked.tables)
          (subst (λ m. Kept db2.events floor m) (sym bodies)
            (subst (λ e. Kept e floor cas) (sym events) (Kept-after a)))
          (subst (λ m. Named db2.events floor m) (sym bodies)
            (subst (λ e. Named e floor cas) (sym events) (Named-after a)))
          h in
      record {
        window = pruned.window;
        oldest = oldest;
        is_oldest =
            ap (λ e. head (last_n n (body_rows e))) pruned.events
            ∙ ap (λ r. head (last_n n r)) rows
            ∙ is;
        begins = pruned.begins ∙ ap some (same_beginning n oldest some_retained v is);
      }
