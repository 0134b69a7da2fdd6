-- ===== src/MemoryStore/Accounting.antt =====
-- The byte accounting of core/src/store.rs against the plain sum of what its entries cost.
use audite_db.Prelude.{
  ℕ, ◌+◌, ◌≡◌, refl, ap, ◌≤◌, Option, none, some, List, [], ◌∷◌, length, arith, Option-cases, inl,
  inr,
}
use audite_db.Prelude.Assoc.{lookup, insert, remove}
use audite_db.Prelude.Text.{Bytes, eq_bytes_iff}
use audite_db.Prelude.Parse.{usize_max}
use audite_db.MemoryStore.{
  MemEntry, metadata_fold, metadata_bytes, accounted_entry_parts_bytes, memory_entry_overhead_bytes,
  memory_body_hash_hex_bytes,
}

unfoldable pub headers_cost : List (Bytes × Bytes) → ℕ
headers_cost [] = 0
headers_cost ((name, value) ∷ headers) = length name + length value + headers_cost headers

unfoldable pub parts_cost : Bytes → ℕ → Bytes → List (Bytes × Bytes) → ℕ
parts_cost world body_len content_type headers =
    memory_entry_overhead_bytes
    + length world
    + body_len
    + memory_body_hash_hex_bytes
    + (length content_type + headers_cost headers)

-- What an entry costs, in numbers without bounds.
abbrev pub entry_cost : Bytes → MemEntry → ℕ
entry_cost world e = parts_cost world (length e.body) e.content_type e.headers

metadata_fold_sound :
    (headers : List (Bytes × Bytes)) (total n : ℕ)
    → metadata_fold headers total ≡ some n
    → n ≡ total + headers_cost headers
unfolding metadata_fold headers_cost
metadata_fold_sound [] total n h = ground arith
metadata_fold_sound ((a, b) ∷ headers) total n h =
    ground (arith, metadata_fold_sound headers (total + length a + length b) n)

metadata_fold_complete :
    (headers : List (Bytes × Bytes)) (total : ℕ)
    → total + headers_cost headers ≤ usize_max
    → metadata_fold headers total ≡ some (total + headers_cost headers)
unfolding metadata_fold headers_cost
metadata_fold_complete [] total h = ap some (omega arith)
metadata_fold_complete ((a, b) ∷ headers) total h =
    ground (arith, metadata_fold_complete headers (total + length a + length b) (omega arith))

pub parts_sound :
    (world : Bytes) (len : ℕ) (content_type : Bytes) (headers : List (Bytes × Bytes)) (n : ℕ)
    → accounted_entry_parts_bytes world len content_type headers ≡ some n
    → (n ≡ parts_cost world len content_type headers) × (n ≤ usize_max)
unfolding accounted_entry_parts_bytes metadata_bytes parts_cost
parts_sound world len content_type headers n h =
    elim (Option-cases (metadata_fold headers (length content_type))) [
      | inl over ↦ absurd (ground arith)
      | inr (m, e) ↦ ground (arith, metadata_fold_sound headers (length content_type) m e)
    ]

pub parts_complete :
    (world : Bytes) (len : ℕ) (content_type : Bytes) (headers : List (Bytes × Bytes))
    → parts_cost world len content_type headers ≤ usize_max
    → accounted_entry_parts_bytes world len content_type headers
      ≡ some (parts_cost world len content_type headers)
unfolding accounted_entry_parts_bytes metadata_bytes parts_cost
parts_complete world len content_type headers h =
    ground (arith, metadata_fold_complete headers (length content_type) (omega arith))

-- What all entries cost.
unfoldable pub total : List (Bytes × MemEntry) → ℕ
total [] = 0
total ((k, e) ∷ m) = entry_cost k e + total m

-- What stands under a key costs.
unfoldable pub cost_at : Bytes → Option MemEntry → ℕ
cost_at key none = 0
cost_at key (some e) = entry_cost key e

pub total-insert :
    (key : Bytes) (e : MemEntry) (m : List (Bytes × MemEntry))
    → total (insert key e m) + cost_at key (lookup key m) ≡ total m + entry_cost key e
unfolding total insert lookup cost_at
total-insert key e [] = omega arith
total-insert key e ((k, d) ∷ m) = ground (arith, total-insert key e m, eq_bytes_iff key k)

-- No key stands twice.
abbrev pub Distinct : List (Bytes × MemEntry) → Type 0
Distinct [] = Unit
Distinct ((k, e) ∷ m) = (lookup k m ≡ none) × Distinct m

pub total-remove :
    (key : Bytes) (m : List (Bytes × MemEntry))
    → Distinct m
    → total (remove key m) + cost_at key (lookup key m) ≡ total m
unfolding total remove lookup cost_at
total-remove key [] d = refl
total-remove key ((k, e) ∷ m) d = ground (arith, total-remove key m d.1, eq_bytes_iff key k)

pub lookup-cost : (key : Bytes) (m : List (Bytes × MemEntry)) → cost_at key (lookup key m) ≤ total m
unfolding total lookup cost_at
lookup-cost key [] = omega arith
lookup-cost key ((k, e) ∷ m) = ground (arith, lookup-cost key m, eq_bytes_iff key k)
