-- ===== src/StorageClass.antt =====
-- core/src/storage_class.rs: which failures of SQLite a caller may try again, and which say that the
-- disk is full.
use audite_db.Prelude.{Bool, true, false, ◌||◌, [], ◌∷◌, ◌++◌, if◌then◌else◌}
use audite_db.Prelude.Text.{Bytes, codes, starts_with, to_ascii_lowercase}
use audite_db.Audit.Retention.{
  StorageError, corrupt_error, invalid_parameter_name, invalid_query, sqlite_full, sqlite_busy,
  integer_overflow, invalid_column_type, constraint_violation, execute_returned_results,
}

pub data StorageFailureClass : Type 0 where
  transient insufficient_storage other : StorageFailureClass

-- `str::contains`
unfoldable pub contains : Bytes → Bytes → Bool
contains part [] = starts_with part []
contains part (b ∷ s) = let rest = contains part s in starts_with part (b ∷ s) || rest

-- `to_string` of the error; those without a text of their own have one that no test looks for.
unfoldable pub message : StorageError → Bytes
message (corrupt_error text) = text
message (invalid_parameter_name name) = codes "Invalid parameter name: " ++ name
message invalid_query = codes "Query is not read-only"
message sqlite_full = codes "database or disk is full"
message sqlite_busy = codes "database is locked"
message integer_overflow = codes "integer overflow"
message invalid_column_type = codes "Invalid column type"
message constraint_violation = codes "UNIQUE constraint failed: meta_headers.name"
message execute_returned_results = codes "Execute returned results - did you mean to call query?"

abbrev is_disk_full : StorageError → Bool
is_disk_full e = elim e [ sqlite_full ↦ true | _ ↦ false ]

abbrev is_busy : StorageError → Bool
is_busy e = elim e [ sqlite_busy ↦ true | _ ↦ false ]

unfoldable pub is_insufficient_storage : StorageError → Bool
unfolding contains message
is_insufficient_storage e =
    let text = to_ascii_lowercase (message e) in
    is_disk_full e
    || contains (codes "database or disk is full") text
    || contains (codes "disk is full") text
    || contains (codes "no space left") text
    || contains (codes "not enough space") text

unfoldable pub is_transient : StorageError → Bool
unfolding contains message
is_transient e =
    let text = to_ascii_lowercase (message e) in
    is_busy e
    || contains (codes "database is locked") text
    || contains (codes "database table is locked") text

unfoldable pub classify_storage_failure : StorageError → StorageFailureClass
unfolding is_insufficient_storage is_transient
classify_storage_failure e =
    if is_insufficient_storage e
    then insufficient_storage
    else if is_transient e
    then transient
    else other
