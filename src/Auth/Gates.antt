-- ===== src/Auth/Gates.antt =====
-- The write gate of core/src/world_ops.rs.
use audite_db.Prelude.{
  ℕ, ◌≤◌, ◌≡◌, ◌≢◌, ap, ◌∙◌, true, inl, inr, [], ◌∷◌, ◌++◌, Result, if◌then◌else◌, Bool-cases,
  Option-cases, arith, ok, err,
}
use audite_db.Prelude.Text.{
  Bytes, codes, eq_bytes, eq_bytes_iff, strip_prefix, strip_prefix-append, strip_prefix_sound,
  starts_with,
}
use audite_db.Auth.{
  AuthGate, AccessError, write_gate_of, Tier, anon, read, write, approve, write_gate,
  write_approve_gate, Tokens, auth, append_only, WritePermit, can_read, authorize_write,
  needs_write_approve, exact_or_child, is_delete_ledger_world,
}

-- `Approve` covers `Write`, `Write` covers `Read`, `Read` covers `Anon`.
abbrev pub rank : Tier → ℕ
rank anon = 0
rank read = 1
rank write = 2
rank approve = 3

-- A name and the worlds below it.
pub data At (name world : Bytes) : Type 0 where
  itself : world ≡ name → At name world
  below : (rest : Bytes) → world ≡ name ++ b'/' ∷ rest → At name world

-- The worlds of the system.
pub data IsSystemWorld (world : Bytes) : Type 0 where
  in_lib : At (codes "lib") world → IsSystemWorld world
  in_etc : At (codes "etc") world → IsSystemWorld world
  in_boot : At (codes "boot") world → IsSystemWorld world
  in_usr : At (codes "usr") world → IsSystemWorld world
  in_var_log : At (codes "var/log") world → IsSystemWorld world

-- The gate of a write to a world.
pub data HasGate (world : Bytes) : AuthGate → Type 0 where
  guarded : IsSystemWorld world → HasGate world write_approve_gate
  plain : ¬ IsSystemWorld world → HasGate world write_gate

-- The tiers that pass a gate.
pub data Passes : AuthGate → Tier → Type 0 where
  writer : (tier : Tier) → 2 ≤ rank tier → Passes write_gate tier
  approver : (tier : Tier) → 3 ≤ rank tier → Passes write_approve_gate tier

exact_or_child-At : (name world : Bytes) → exact_or_child world name ≡ true → At name world
unfolding exact_or_child starts_with
exact_or_child-At name world h = elim (Bool-cases (eq_bytes world name)) [
  | inl e ↦ itself ((eq_bytes_iff world name).0 e)
  | inr e ↦ elim (Option-cases (strip_prefix name world)) [
    | inl none_left ↦ absurd (ground arith)
    | inr (rest, left) ↦ child rest (strip_prefix_sound name world rest left) (ground arith)
  ]
]
  where
    first_byte : (b : ℕ) (rest : Bytes) → starts_with (codes "/") (b ∷ rest) ≡ true → b ≡ b'/'
    first_byte b rest h = ground arith

    child :
        (rest : Bytes) → world ≡ name ++ rest → starts_with (codes "/") rest ≡ true → At name world
    child [] is slash = absurd (ground arith)
    child (b ∷ rest) is slash =
        below rest (is ∙ ap (λ x. name ++ x ∷ rest) (first_byte b rest slash))

At-exact_or_child : (name world : Bytes) → At name world → exact_or_child world name ≡ true
unfolding exact_or_child starts_with
At-exact_or_child name world (itself is) = ground (arith, eq_bytes_iff world name)
At-exact_or_child name world (below rest is) = ground (
  arith,
  ap (strip_prefix name) is ∙ strip_prefix-append name (b'/' ∷ rest),
  eq_bytes_iff world name,
)

needs_write_approve-IsSystemWorld :
    (world : Bytes) → needs_write_approve world ≡ true → IsSystemWorld world
unfolding needs_write_approve
needs_write_approve-IsSystemWorld world h = elim (Bool-cases (exact_or_child world (codes "lib"))) [
  | inl x ↦ in_lib (exact_or_child-At _ world x)
  | inr a ↦ elim (Bool-cases (exact_or_child world (codes "etc"))) [
    | inl x ↦ in_etc (exact_or_child-At _ world x)
    | inr b ↦ elim (Bool-cases (exact_or_child world (codes "boot"))) [
      | inl x ↦ in_boot (exact_or_child-At _ world x)
      | inr d ↦ elim (Bool-cases (exact_or_child world (codes "usr"))) [
        | inl x ↦ in_usr (exact_or_child-At _ world x)
        | inr e ↦ in_var_log (exact_or_child-At _ world (ground arith))
      ]
    ]
  ]
]

IsSystemWorld-needs_write_approve :
    (world : Bytes) → IsSystemWorld world → needs_write_approve world ≡ true
unfolding needs_write_approve
IsSystemWorld-needs_write_approve world (in_lib x) = ground (arith, At-exact_or_child _ world x)
IsSystemWorld-needs_write_approve world (in_etc x) = ground (arith, At-exact_or_child _ world x)
IsSystemWorld-needs_write_approve world (in_boot x) = ground (arith, At-exact_or_child _ world x)
IsSystemWorld-needs_write_approve world (in_usr x) = ground (arith, At-exact_or_child _ world x)
IsSystemWorld-needs_write_approve world (in_var_log x) = ground (arith, At-exact_or_child _ world x)

-- What an authorization has decided.
pub data Decision (world : Bytes) (tier : Tier) : Result AccessError WritePermit → Type 0 where
  refused :
      (gate : AuthGate)
      → HasGate world gate
      → ¬ Passes gate tier
      → Decision world tier (err (auth gate))
  ledger :
      (gate : AuthGate)
      → HasGate world gate
      → Passes gate tier
      → world ≡ codes "var/log/deletes"
      → Decision world tier (err append_only)
  permitted :
      (gate : AuthGate)
      → HasGate world gate
      → Passes gate tier
      → world ≢ codes "var/log/deletes"
      → Decision world tier (ok (record { world = world; gate = gate }))

passed :
    (world : Bytes) (tier : Tier) (gate : AuthGate)
    → HasGate world gate
    → Passes gate tier
    → Decision world tier (
        if is_delete_ledger_world world
        then err append_only
        else ok (record { world = world; gate = gate }))
unfolding is_delete_ledger_world
passed world tier gate has passes = elim (Bool-cases (eq_bytes world (codes "var/log/deletes"))) [
  | inl e ↦ rw e (ledger gate has passes ((eq_bytes_iff world (codes "var/log/deletes")).0 e))
  | inr e ↦ rw e (permitted gate has passes (λ is. cc ((eq_bytes_iff world _).1 is)))
]

never : (gate : AuthGate) (tier : Tier) → rank tier ≤ 1 → ¬ Passes gate tier
never _ tier low (writer _ high) = omega arith
never _ tier low (approver _ high) = omega arith

write_is_low : ¬ Passes write_approve_gate write
write_is_low (approver _ high) = omega arith

HasGate-write_gate_of : (world : Bytes) → HasGate world (write_gate_of world)
HasGate-write_gate_of world = elim (Bool-cases (needs_write_approve world)) [
  | inl h ↦ rw h (guarded (needs_write_approve-IsSystemWorld world h))
  | inr h ↦ rw h (plain (λ x. cc (IsSystemWorld-needs_write_approve world x)))
]

-- A write has the gate that the world's name gives it: `lib`, `etc`, `boot`, `usr` and `var/log`,
-- and all below them, ask for the approve tier, and every other world for the write tier. A tier
-- that does not pass is refused with the gate, before the world is looked at as the delete ledger,
-- which is refused to all; every other write has a permit with the world's gate.
pub authorize_write-Decision :
    (world : Bytes) (tier : Tier) → Decision world tier (authorize_write world tier)
unfolding authorize_write
authorize_write-Decision world anon =
    refused _ (HasGate-write_gate_of world) (never _ anon (omega arith))
authorize_write-Decision world read =
    refused _ (HasGate-write_gate_of world) (never _ read (omega arith))
authorize_write-Decision world write = elim (Bool-cases (needs_write_approve world)) [
  | inl h ↦ rw h (refused _ (guarded (needs_write_approve-IsSystemWorld world h)) write_is_low)
  | inr h ↦ rw h (
      passed world write write_gate (plain (λ x. cc (IsSystemWorld-needs_write_approve world x)))
        (writer write (omega arith)))
]
authorize_write-Decision world approve = elim (Bool-cases (needs_write_approve world)) [
  | inl h ↦ rw h (
      passed world approve write_approve_gate (guarded (needs_write_approve-IsSystemWorld world h))
        (approver approve (omega arith)))
  | inr h ↦ rw h (
      passed world approve write_gate (plain (λ x. cc (IsSystemWorld-needs_write_approve world x)))
        (writer approve (omega arith)))
]

pub can_read_mono :
    (t : Tokens) (low high : Tier)
    → rank low ≤ rank high
    → can_read t low ≡ true
    → can_read t high ≡ true
unfolding can_read
can_read_mono t anon anon h e = e
can_read_mono t low anon h e = absurd (omega arith)
can_read_mono t low read h e = ground arith
can_read_mono t low write h e = ground arith
can_read_mono t low approve h e = ground arith
