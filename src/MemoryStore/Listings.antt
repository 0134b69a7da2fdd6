-- ===== src/MemoryStore/Listings.antt =====
-- The bounded listing of the store against the plain one.
use audite_db.Prelude.{
  ℕ, ◌+◌, ◌≡◌, ◌≤◌, Option, none, some, List, [], ◌∷◌, ◌++◌, append-nil, append_assoc, length,
  length-append, leb, if◌then◌else◌, ◌∙◌, arith, inl, inr, Bool-cases,
}
use audite_db.Prelude.Text.{Bytes, starts_with}
use audite_db.MemoryStore.{
  MemEntry, MemoryStore, names_with_prefix, list_with_prefix, bounded_names,
  list_with_prefix_bounded,
}

-- What the loop gives that has gathered `out`, within the bound.
abbrev gathered : ℕ → List Bytes → List Bytes → Option (List Bytes)
gathered max out names = if leb (length out + length names) max then some (out ++ names) else none

gathered-push :
    (max : ℕ) (out names : List Bytes) (k : Bytes)
    → gathered max (out ++ k ∷ []) names ≡ gathered max out (k ∷ names)
gathered-push max out names k =
    rw (length-append out (k ∷ []), append_assoc out (k ∷ []) names) (ground arith)

bounded_names-gathered :
    (prefix : Bytes) (max : ℕ) (m : List (Bytes × MemEntry)) (out : List Bytes)
    → length out ≤ max
    → bounded_names prefix max m out ≡ gathered max out (names_with_prefix prefix m)
unfolding bounded_names names_with_prefix
bounded_names-gathered prefix max [] out fits = rw (append-nil out) (ground arith)
bounded_names-gathered prefix max ((k, e) ∷ m) out fits = elim (Bool-cases (starts_with prefix k)) [
  | inr other ↦ rw other (bounded_names-gathered prefix max m out fits)
  | inl kept ↦ elim (Bool-cases (leb max (length out))) [
    | inl full ↦ rw (kept, full) (ground arith)
    | inr room ↦
        let pushed : length (out ++ k ∷ []) ≤ max =
          rw (length-append out (k ∷ [])) (ground arith) in
        rw (kept, room)
          (bounded_names-gathered prefix max m (out ++ k ∷ []) pushed
            ∙ gathered-push max out (names_with_prefix prefix m) k)
  ]
]

-- The bounded listing gives the whole listing if it is within the bound, and nothing at all
-- otherwise: it never gives a part of it.
pub list_with_prefix_bounded-list_with_prefix :
    (prefix : Bytes) (max : ℕ) (s : MemoryStore)
    → list_with_prefix_bounded prefix max s ≡ (
        if leb (length (names_with_prefix prefix s.entries)) max
        then some (list_with_prefix prefix s)
        else none)
unfolding list_with_prefix_bounded list_with_prefix
list_with_prefix_bounded-list_with_prefix prefix max s =
    let loop = bounded_names-gathered prefix max s.entries [] (omega arith) in ground (arith, loop)
