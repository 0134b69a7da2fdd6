-- ===== src/MemoryStore.antt =====
-- core/src/store.rs: the worlds kept in memory, under a quota of accounted bytes. An operation holds
-- its entry and the quota's lock until it commits, so it is one step here.
pub mod Listings
pub mod Accounting
pub mod Writes
pub mod Appends
pub mod Deletes
use audite_db.Prelude.{
  ℕ, ◌+◌, ◌-◌, ◌≡◌, Bool, true, false, not, ◌||◌, Option, none, some, List, [], ◌∷◌, ◌++◌, map,
  Result, ok, err, leb, ltb, length, if◌then◌else◌,
}
use audite_db.Prelude.Assoc.{lookup, insert, remove}
use audite_db.Prelude.Text.{Bytes, codes, starts_with, leb_bytes}
use audite_db.Prelude.Parse.{usize_max}
use audite_db.Timeline.{Crypto}

unfoldable pub has_memory_prefix : Bytes → Bool
has_memory_prefix world =
    starts_with (codes "tmp/") world
    || starts_with (codes "dev/") world
    || starts_with (codes "sys/") world

unfoldable pub is_memory_world : Bytes → Bool
unfolding has_memory_prefix
is_memory_world world = has_memory_prefix world

unfoldable pub is_persistent : Bytes → Bool
is_persistent world = not (is_memory_world world)

pub record MemEntry : Type 0 where
  pub body : Bytes
  pub body_hash : Bytes
  pub content_type : Bytes
  pub headers : List (Bytes × Bytes)

-- `MemEntry::new`
abbrev pub new_entry : Crypto → Bytes → Bytes → List (Bytes × Bytes) → MemEntry
new_entry c body content_type headers = record {
  body = body;
  body_hash = c.sha256_hex body;
  content_type = content_type;
  headers = headers;
}

abbrev pub memory_entry_overhead_bytes : ℕ
memory_entry_overhead_bytes = 128

abbrev pub memory_body_hash_hex_bytes : ℕ
memory_body_hash_hex_bytes = 64

pub record MemoryStore : Type 0 where
  pub entries : List (Bytes × MemEntry)
  pub accounted_bytes : ℕ

pub record MemoryQuotaError : Type 0 where
  pub used : ℕ
  pub quota : ℕ
  pub projected : ℕ

abbrev pub checked_add : ℕ → ℕ → Option ℕ
checked_add a b = if leb (a + b) usize_max then some (a + b) else none

abbrev pub checked_sub : ℕ → ℕ → Option ℕ
checked_sub a b = if leb b a then some (a - b) else none

abbrev bind_option {ℓ κ} : {A : Type ℓ} {B : Type κ} → Option A → (A → Option B) → Option B
bind_option none f = none
bind_option (some a) f = f a

abbrev pub map_ok {ℓ κ μ} :
    {E : Type ℓ} {A : Type κ} {B : Type μ} → (A → B) → Result E A → Result E B
map_ok f (ok a) = ok (f a)
map_ok f (err e) = err e

-- The fold of `metadata_bytes` over the headers.
unfoldable pub metadata_fold : List (Bytes × Bytes) → ℕ → Option ℕ
metadata_fold [] total = some total
metadata_fold ((name, value) ∷ headers) total =
    bind_option (checked_add total (length name))
      (λ t. bind_option (checked_add t (length value)) (metadata_fold headers))

unfoldable pub metadata_bytes : Bytes → List (Bytes × Bytes) → Option ℕ
unfolding metadata_fold
metadata_bytes content_type headers = metadata_fold headers (length content_type)

unfoldable pub accounted_entry_parts_bytes : Bytes → ℕ → Bytes → List (Bytes × Bytes) → Option ℕ
unfolding metadata_bytes
accounted_entry_parts_bytes world body_len content_type headers =
    bind_option (checked_add memory_entry_overhead_bytes (length world)) (λ a.
      bind_option (checked_add a body_len) (λ b.
        bind_option (checked_add b memory_body_hash_hex_bytes)
          (λ d. bind_option (metadata_bytes content_type headers) (λ m. checked_add d m))))

unfoldable pub accounted_entry_bytes : Bytes → MemEntry → Option ℕ
unfolding accounted_entry_parts_bytes
accounted_entry_bytes world e =
    accounted_entry_parts_bytes world (length e.body) e.content_type e.headers

unfoldable pub projected_accounted_bytes : ℕ → ℕ → ℕ → Option ℕ
projected_accounted_bytes used previous next =
    bind_option (checked_sub used previous) (λ rest. checked_add rest next)

abbrev pub quota_error : MemoryStore → ℕ → ℕ → MemoryQuotaError
quota_error s quota projected = record {
  used = s.accounted_bytes;
  quota = quota;
  projected = projected;
}

-- The end of a write and of an append: the projection is compared and the entry is committed.
unfoldable pub commit :
    MemoryStore → Bytes → MemEntry → ℕ → ℕ → ℕ → Result MemoryQuotaError MemoryStore
unfolding projected_accounted_bytes
commit s world replacement previous_len next_len max_total_bytes =
    elim (projected_accounted_bytes s.accounted_bytes previous_len next_len) [
      | none ↦ err (quota_error s max_total_bytes usize_max)
      | some projected ↦
          if ltb max_total_bytes projected
          then err (quota_error s max_total_bytes projected)
          else ok
              (record { entries = insert world replacement s.entries; accounted_bytes = projected })
    ]

-- `existed` of the outcome, with the store after the write
unfoldable pub write_with_quota :
    Crypto
    → Bytes
    → Bytes
    → Bytes
    → List (Bytes × Bytes)
    → ℕ
    → MemoryStore
    → Result MemoryQuotaError (Bool × MemoryStore)
unfolding commit
write_with_quota c world body content_type headers max_total_bytes s =
    elim (accounted_entry_parts_bytes world (length body) content_type headers) [
      | none ↦ err (quota_error s max_total_bytes usize_max)
      | some next_len ↦ elim (lookup world s.entries) [
        | none ↦
            map_ok (λ t. (false, t))
              (commit s world (new_entry c body content_type headers) 0 next_len max_total_bytes)
        | some e ↦ elim (accounted_entry_bytes world e) [
          | none ↦ err (quota_error s max_total_bytes usize_max)
          | some previous_len ↦
              map_ok (λ t. (true, t))
                (commit s world (new_entry c body content_type headers) previous_len next_len
                  max_total_bytes)
        ]
      ]
    ]

-- The entry with a longer body.
abbrev pub appended_entry : Crypto → MemEntry → Bytes → MemEntry
appended_entry c e body = record {
  body = e.body ++ body;
  body_hash = c.sha256_hex (e.body ++ body);
  content_type = e.content_type;
  headers = e.headers;
}

-- The hash after the append, or nothing of a world that is not there, with the store after it.
unfoldable pub append_with_quota :
    Crypto → Bytes → Bytes → ℕ → MemoryStore → Result MemoryQuotaError (Option Bytes × MemoryStore)
unfolding commit
append_with_quota c world body max_total_bytes s = elim (lookup world s.entries) [
  | none ↦ ok (none, s)
  | some e ↦ elim (accounted_entry_bytes world e) [
    | none ↦ err (quota_error s max_total_bytes usize_max)
    | some previous_len ↦ elim (accounted_entry_bytes world (appended_entry c e body)) [
      | none ↦ err (quota_error s max_total_bytes usize_max)
      | some next_len ↦
          map_ok (λ t. (some (c.sha256_hex (e.body ++ body)), t))
            (commit s world (appended_entry c e body) previous_len next_len max_total_bytes)
    ]
  ]
]

unfoldable pub delete : Bytes → MemoryStore → Bool × MemoryStore
delete world s = elim (lookup world s.entries) [
  | none ↦ (false, s)
  | some e ↦ elim (accounted_entry_bytes world e) [
    | none ↦ (false, s)
    | some removed_len ↦ elim (checked_sub s.accounted_bytes removed_len) [
      | none ↦ (false, s)
      | some projected ↦
          (true, record { entries = remove world s.entries; accounted_bytes = projected })
    ]
  ]
]

abbrev insert_name : Bytes → List Bytes → List Bytes
insert_name n [] = n ∷ []
insert_name n (m ∷ ns) =
    let rest = insert_name n ns in if leb_bytes n m then n ∷ m ∷ ns else m ∷ rest

-- `sort_by` the names
unfoldable pub sort_names : List Bytes → List Bytes
sort_names [] = []
sort_names (n ∷ ns) = insert_name n (sort_names ns)

-- `list_with_prefix`; `list` is that of the empty prefix
unfoldable pub names_with_prefix : Bytes → List (Bytes × MemEntry) → List Bytes
names_with_prefix prefix [] = []
names_with_prefix prefix ((k, e) ∷ m) =
    let rest = names_with_prefix prefix m in if starts_with prefix k then k ∷ rest else rest

unfoldable pub list_with_prefix : Bytes → MemoryStore → List Bytes
unfolding sort_names names_with_prefix
list_with_prefix prefix s = sort_names (names_with_prefix prefix s.entries)

-- The loop of `list_with_prefix_bounded`, with what it has gathered.
unfoldable bounded_names : Bytes → ℕ → List (Bytes × MemEntry) → List Bytes → Option (List Bytes)
bounded_names prefix max [] out = some out
bounded_names prefix max ((k, e) ∷ m) out =
    let skip = bounded_names prefix max m out in
    let push = bounded_names prefix max m (out ++ k ∷ []) in
    if starts_with prefix k then (if leb max (length out) then none else push) else skip

unfoldable pub list_with_prefix_bounded : Bytes → ℕ → MemoryStore → Option (List Bytes)
unfolding sort_names bounded_names
list_with_prefix_bounded prefix max s = elim (bounded_names prefix max s.entries []) [
  | none ↦ none
  | some names ↦ some (sort_names names)
]
