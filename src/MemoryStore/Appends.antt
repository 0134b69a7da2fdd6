-- ===== src/MemoryStore/Appends.antt =====
-- `append_with_quota` of core/src/store.rs: what it accepts, what it leaves, and the quota.
use audite_db.Prelude.{
  ℕ, ◌≡◌, sym, ap, ◌∙◌, subst, ◌≤◌, ◌↔◌, Option, none, some, ◌++◌, length, arith, Option-cases, inl,
  inr, Result, ok, err,
}
use audite_db.Prelude.Assoc.{lookup, insert}
use audite_db.Prelude.Text.{Bytes}
use audite_db.Prelude.Parse.{usize_max}
use audite_db.Timeline.{Crypto}
use audite_db.MemoryStore.{
  MemEntry, appended_entry, MemoryStore, quota_error, accounted_entry_bytes, commit, map_ok,
  append_with_quota,
}
use audite_db.MemoryStore.Accounting.{
  parts_sound, parts_complete, total, cost_at, lookup-cost, total-insert,
}
use audite_db.MemoryStore.Writes.{WellFormed, old-cost, commit_iff, replaced, replaced-WellFormed}

append-commit :
    (c : Crypto) (world body : Bytes) (max next : ℕ) (s : MemoryStore) (e : MemEntry)
    → WellFormed s
    → lookup world s.entries ≡ some e
    → accounted_entry_bytes world (appended_entry c e body) ≡ some next
    → append_with_quota c world body max s
      ≡ map_ok
          (λ t. (some (c.sha256_hex (e.body ++ body)), t))
          (commit s world
            (appended_entry c e body)
            (cost_at world (lookup world s.entries))
            next
            max)
unfolding append_with_quota
append-commit c world body max next s e w found new =
    ground (arith, new, found, old-cost s world e w found)

map_ok-hash {ℓ κ} :
    {E : Type ℓ} {A : Type κ} (b : Bytes) (r : Option Bytes) (m : Result E A) (a : A)
    → (map_ok {B = Option Bytes × A} (λ t. (some b, t)) m ≡ ok (r, a)) ↔ ((r ≡ some b) × (m ≡ ok a))
map_ok-hash b r (ok x) a = (λ h. (cc, cc), λ h. cc (h.0, h.1))
map_ok-hash b r (err e) a = (λ h. cc, λ h. cc (h.1))

-- An append to a world that is there is accepted exactly if the store with the longer body fits the
-- quota; it keeps the metadata and answers the hash of the whole body.
pub append_with_quota_iff :
    (c : Crypto) (world body : Bytes) (max : ℕ) (s t : MemoryStore) (e : MemEntry)
    (hash : Option Bytes)
    → WellFormed s
    → max ≤ usize_max
    → lookup world s.entries ≡ some e
    → (append_with_quota c world body max s ≡ ok (hash, t)) ↔ (
        (total (insert world (appended_entry c e body) s.entries) ≤ max)
        × (hash ≡ some (c.sha256_hex (e.body ++ body)))
        × (t ≡ replaced s world (appended_entry c e body)))
unfolding append_with_quota accounted_entry_bytes
append_with_quota_iff c world body max s t e hash w bound found =
    elim (Option-cases (accounted_entry_bytes world (appended_entry c e body))) [
      | inl over ↦ (λ h. absurd (cc (refused over, h)), λ h. absurd (too_big over h.0))
      | inr (next, new) ↦
          let cost =
            (parts_sound world (length (e.body ++ body)) e.content_type e.headers next new).0 in
          let shape = append-commit c world body max next s e w found new in
          let accepted = commit_iff s t world (appended_entry c e body) max w bound in
          let outcome =
            map_ok-hash (c.sha256_hex (e.body ++ body)) hash
              (commit s world (appended_entry c e body) (cost_at world (lookup world s.entries))
                next max)
              t in
          (
            λ h.
                let (e1, e2) = outcome.0 (sym shape ∙ h) in
                let (fits, result) = accepted.0 (
                  ap
                    (λ n.
                      commit s world (appended_entry c e body)
                        (cost_at world (lookup world s.entries)) n max)
                    (sym cost)
                  ∙ e2) in
                (fits, e1, result),
            λ h.
                shape
                ∙ outcome.1 (
                  h.1,
                  ap
                        (λ n.
                          commit s world (appended_entry c e body)
                            (cost_at world (lookup world s.entries)) n max)
                        cost
                      ∙ accepted.1 (h.0, h.2),
                ),
          )
    ]
  where
    refused :
        accounted_entry_bytes world (appended_entry c e body) ≡ none
        → append_with_quota c world body max s ≡ err (quota_error s max usize_max)
    refused over =
        unfold append_with_quota in ground (arith, over, found, old-cost s world e w found)

    too_big :
        accounted_entry_bytes world (appended_entry c e body) ≡ none
        → total (insert world (appended_entry c e body) s.entries) ≤ max
        → ⊥
    too_big over h =
        let cost_new = total-insert world (appended_entry c e body) s.entries in
        let cost_old = lookup-cost world s.entries in
        ground (arith, parts_complete world (length (e.body ++ body)) e.content_type e.headers)

-- An append keeps the accounting exact, and if the world was there within its quota.
pub append_with_quota-WellFormed :
    (c : Crypto) (world body : Bytes) (max : ℕ) (s t : MemoryStore) (e : MemEntry)
    (hash : Option Bytes)
    → WellFormed s
    → max ≤ usize_max
    → lookup world s.entries ≡ some e
    → append_with_quota c world body max s ≡ ok (hash, t)
    → WellFormed t × (t.accounted_bytes ≤ max)
append_with_quota-WellFormed c world body max s t e hash w bound found h =
    let (fits, seen, result) =
      (append_with_quota_iff c world body max s t e hash w bound found).0 h in
    subst (λ x. WellFormed x × (x.accounted_bytes ≤ max)) (sym result)
      (replaced-WellFormed s world (appended_entry c e body) max w bound fits, fits)
