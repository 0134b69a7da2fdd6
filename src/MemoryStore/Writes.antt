-- ===== src/MemoryStore/Writes.antt =====
-- `write_with_quota` of core/src/store.rs: what it accepts, what it leaves, and the quota.
use audite_db.Prelude.{
  is_some, ℕ, ◌≡◌, refl, sym, ap, ◌∙◌, subst, ◌≤◌, ◌↔◌, Bool, none, some, List, [], ◌∷◌, length,
  arith, Option-cases, inl, inr, Result, ok, err,
}
use audite_db.Prelude.Assoc.{lookup, insert, remove, lookup-insert_other, lookup-remove_other}
use audite_db.Prelude.Text.{Bytes, eq_bytes_iff}
use audite_db.Prelude.Parse.{usize_max}
use audite_db.Timeline.{Crypto}
use audite_db.MemoryStore.{
  MemEntry, new_entry, MemoryStore, accounted_entry_parts_bytes, accounted_entry_bytes,
  projected_accounted_bytes, commit, map_ok, write_with_quota,
}
use audite_db.MemoryStore.Accounting.{
  entry_cost, parts_sound, parts_complete, total, cost_at, lookup-cost, total-insert, Distinct,
}

-- The counter is the sum of what the entries cost, no key stands twice, and the sum fits a word.
pub record WellFormed (s : MemoryStore) : Type 0 where
  pub summed : s.accounted_bytes ≡ total s.entries
  pub distinct : Distinct s.entries
  pub fits : total s.entries ≤ usize_max

insert-Distinct :
    (key : Bytes) (e : MemEntry) (m : List (Bytes × MemEntry))
    → Distinct m
    → Distinct (insert key e m)
unfolding insert lookup
insert-Distinct key e [] d = (refl, tt)
insert-Distinct key e ((k, f) ∷ m) d = ground (
  arith,
  insert-Distinct key e m d.1,
  lookup-insert_other k key e m,
  eq_bytes_iff key k,
  eq_bytes_iff k key,
)

pub remove-Distinct :
    (key : Bytes) (m : List (Bytes × MemEntry)) → Distinct m → Distinct (remove key m)
unfolding remove lookup
remove-Distinct key [] d = tt
remove-Distinct key ((k, f) ∷ m) d = ground (
  arith,
  remove-Distinct key m d.1,
  lookup-remove_other k key m,
  eq_bytes_iff key k,
  eq_bytes_iff k key,
)

-- A store with an entry replaced.
abbrev pub replaced : MemoryStore → Bytes → MemEntry → MemoryStore
replaced s world e = record {
  entries = insert world e s.entries;
  accounted_bytes = total (insert world e s.entries);
}

pub commit_iff :
    (s t : MemoryStore) (world : Bytes) (e : MemEntry) (max : ℕ)
    → WellFormed s
    → max ≤ usize_max
    → (commit s world e (cost_at world (lookup world s.entries)) (entry_cost world e) max ≡ ok t)
      ↔ ((total (insert world e s.entries) ≤ max) × (t ≡ replaced s world e))
unfolding commit projected_accounted_bytes
commit_iff s t world e max w bound =
    ground (arith, w.summed, w.fits, total-insert world e s.entries, lookup-cost world s.entries)

pub old-cost :
    (s : MemoryStore) (world : Bytes) (e : MemEntry)
    → WellFormed s
    → lookup world s.entries ≡ some e
    → accounted_entry_bytes world e ≡ some (cost_at world (lookup world s.entries))
unfolding accounted_entry_bytes cost_at
old-cost s world e w found =
    let bound = lookup-cost world s.entries in
    let cost : cost_at world (lookup world s.entries) ≡ entry_cost world e =
      ap (cost_at world) found in
    parts_complete world (length e.body) e.content_type e.headers
      (omega (arith, bound, cost, w.fits))
    ∙ ap some (sym cost)

-- Under a well-formed store, a write is one commit against what the world costs now.
write-commit :
    (c : Crypto) (world body content_type : Bytes) (headers : List (Bytes × Bytes)) (max next : ℕ)
    (s : MemoryStore)
    → WellFormed s
    → accounted_entry_parts_bytes world (length body) content_type headers ≡ some next
    → write_with_quota c world body content_type headers max s
      ≡ map_ok
          (λ t. (is_some (lookup world s.entries), t))
          (commit s world
            (new_entry c body content_type headers)
            (cost_at world (lookup world s.entries))
            next
            max)
unfolding write_with_quota cost_at
write-commit c world body content_type headers max next s w new =
    elim (Option-cases (lookup world s.entries)) [
      | inl gone ↦ ground (arith, new, gone)
      | inr (e, found) ↦ ground (arith, new, found, old-cost s world e w found)
    ]

map_ok-ok {ℓ κ} :
    {E : Type ℓ} {A : Type κ} (b c : Bool) (m : Result E A) (a : A)
    → (map_ok {B = Bool × A} (λ t. (b, t)) m ≡ ok (c, a)) ↔ ((c ≡ b) × (m ≡ ok a))
map_ok-ok b c (ok x) a = (λ h. (cc, cc), λ h. cc (h.0, h.1))
map_ok-ok b c (err e) a = (λ h. cc, λ h. cc (h.1))

-- A write is accepted exactly if the store with the new entry fits the quota; it then holds the new
-- entry, and it tells whether the world was there. The store is well formed, and the quota a word.
pub write_with_quota_iff :
    (c : Crypto) (world body content_type : Bytes) (headers : List (Bytes × Bytes)) (max : ℕ)
    (s t : MemoryStore) (existed : Bool)
    → WellFormed s
    → max ≤ usize_max
    → (write_with_quota c world body content_type headers max s ≡ ok (existed, t)) ↔ (
        (total (insert world (new_entry c body content_type headers) s.entries) ≤ max)
        × (existed ≡ is_some (lookup world s.entries))
        × (t ≡ replaced s world (new_entry c body content_type headers)))
unfolding write_with_quota accounted_entry_bytes
write_with_quota_iff c world body content_type headers max s t existed w bound =
    elim (Option-cases (accounted_entry_parts_bytes world (length body) content_type headers)) [
      | inl over ↦ (λ h. absurd (cc (over, h)), λ h. absurd (too_big over h.0))
      | inr (next, new) ↦
          let cost = (parts_sound world (length body) content_type headers next new).0 in
          let shape = write-commit c world body content_type headers max next s w new in
          let accepted = commit_iff s t world (new_entry c body content_type headers) max w bound in
          let outcome =
            map_ok-ok (is_some (lookup world s.entries)) existed
              (commit s world (new_entry c body content_type headers)
                (cost_at world (lookup world s.entries)) next max)
              t in
          (
            λ h.
                let (e1, e2) = outcome.0 (sym shape ∙ h) in
                let (fits, result) = accepted.0 (
                  ap
                    (λ n.
                      commit s world (new_entry c body content_type headers)
                        (cost_at world (lookup world s.entries)) n max)
                    (sym cost)
                  ∙ e2) in
                (fits, e1, result),
            λ h.
                shape
                ∙ outcome.1 (
                  h.1,
                  ap
                        (λ n.
                          commit s world (new_entry c body content_type headers)
                            (cost_at world (lookup world s.entries)) n max)
                        cost
                      ∙ accepted.1 (h.0, h.2),
                ),
          )
    ]
  where
    too_big :
        accounted_entry_parts_bytes world (length body) content_type headers ≡ none
        → total (insert world (new_entry c body content_type headers) s.entries) ≤ max
        → ⊥
    too_big over h =
        let cost_new = total-insert world (new_entry c body content_type headers) s.entries in
        let cost_old = lookup-cost world s.entries in
        ground (arith, parts_complete world (length body) content_type headers)

-- A store after a replacement that fits a quota is well formed.
pub replaced-WellFormed :
    (s : MemoryStore) (world : Bytes) (e : MemEntry) (max : ℕ)
    → WellFormed s
    → max ≤ usize_max
    → total (insert world e s.entries) ≤ max
    → WellFormed (replaced s world e)
replaced-WellFormed s world e max w bound h = record {
  summed = refl;
  distinct = insert-Distinct world e s.entries w.distinct;
  fits = omega (arith, h, bound);
}

-- A write that is accepted keeps the accounting exact and within the quota that it was given.
pub write_with_quota-WellFormed :
    (c : Crypto) (world body content_type : Bytes) (headers : List (Bytes × Bytes)) (max : ℕ)
    (s t : MemoryStore) (existed : Bool)
    → WellFormed s
    → max ≤ usize_max
    → write_with_quota c world body content_type headers max s ≡ ok (existed, t)
    → WellFormed t × (t.accounted_bytes ≤ max)
write_with_quota-WellFormed c world body content_type headers max s t existed w bound h =
    let (fits, seen, result) =
      (write_with_quota_iff c world body content_type headers max s t existed w bound).0 h in
    subst (λ x. WellFormed x × (x.accounted_bytes ≤ max)) (sym result)
      (replaced-WellFormed s world (new_entry c body content_type headers) max w bound fits, fits)
