-- ===== src/Auth.antt =====
-- core/src/auth.rs, and the gates of core/src/lib.rs, core/src/world_ops.rs and
-- core/src/delete_ops.rs: credentials, tiers and who may do what.
pub mod Compare
pub mod Credentials
pub mod Gates
use Prim.Native.Nat.{bit_or, bit_xor}
use audite_db.Prelude.{
  ℕ, ◌≡◌, refl, Bool, true, false, not, ◌&&◌, ◌||◌, Option, none, some, List, [], ◌∷◌, Result, ok,
  err, length, all, ◌==◌, if◌then◌else◌,
}
use audite_db.Prelude.Text.{Bytes, codes, eq_bytes, strip_prefix, starts_with}
use audite_db.Prelude.Utf8.{decode_utf8, is_whitespace}

pub data Tier : Type 0 where
  anon read write approve : Tier

pub data AuthGate : Type 0 where
  read_gate write_gate write_approve_gate delete_gate : AuthGate

-- `NonEmptyBytes::is_valid`
unfoldable pub is_valid_token : Bytes → Bool
is_valid_token [] = false
is_valid_token (b ∷ s) = elim (decode_utf8 (b ∷ s)) [
  | none ↦ true
  | some cs ↦ not (all is_whitespace cs)
]

-- `NonEmptyBytes::new`: the only way to a configured token
unfoldable pub non_empty_bytes : Bytes → Option Bytes
unfolding is_valid_token
non_empty_bytes s = if is_valid_token s then some s else none

pub record Tokens : Type 0 where
  pub read_token : Option Bytes
  pub write_token : Option Bytes
  pub approve_token : Option Bytes

unfoldable pub read_required : Tokens → Bool
read_required t = elim t.read_token [ none ↦ false | some s ↦ true ]

-- The loop of `ct_eq` over the zipped bytes, with `diff` so far.
ct_diff : Bytes → Bytes → ℕ → ℕ
ct_diff [] b diff = diff
ct_diff (x ∷ a) [] diff = diff
ct_diff (x ∷ a) (y ∷ b) diff = ct_diff a b (bit_or diff (bit_xor x y))

unfoldable pub ct_eq : Bytes → Bytes → Bool
unfolding ct_diff
ct_eq a b = if length a == length b then ct_diff a b 0 == 0 else false

-- `if let Some(t) = &self.approve { if ct_eq(candidate, t) … }`
unfoldable pub token_matches : Bytes → Option Bytes → Bool
token_matches candidate none = false
token_matches candidate (some t) = ct_eq candidate t

unfoldable pub check_token_bytes : Tokens → Bytes → Tier
unfolding token_matches
check_token_bytes t candidate =
    if not (is_valid_token candidate)
    then anon
    else if token_matches candidate t.approve_token
    then approve
    else if token_matches candidate t.write_token
    then write
    else if token_matches candidate t.read_token
    then read
    else anon

unfoldable pub can_delete : Tier → Bool
can_delete approve = true
can_delete _ = false

unfoldable pub at_least_read : Tier → Bool
at_least_read anon = false
at_least_read _ = true

unfoldable pub can_read : Tokens → Tier → Bool
unfolding read_required at_least_read
can_read t tier = not (read_required t) || at_least_read tier

abbrev pub delete_ledger_world_name : Bytes
delete_ledger_world_name = codes "var/log/deletes"

unfoldable pub is_delete_ledger_world : Bytes → Bool
is_delete_ledger_world world = eq_bytes world delete_ledger_world_name

unfoldable pub exact_or_child : Bytes → Bytes → Bool
exact_or_child world prefix = eq_bytes world prefix || (elim (strip_prefix prefix world) [
  | none ↦ false
  | some rest ↦ starts_with (codes "/") rest
])

unfoldable pub needs_write_approve : Bytes → Bool
needs_write_approve world =
    exact_or_child world (codes "lib")
    || exact_or_child world (codes "etc")
    || exact_or_child world (codes "boot")
    || exact_or_child world (codes "usr")
    || exact_or_child world (codes "var/log")

unfoldable pub can_write : Bytes → Tier → Bool
can_write world anon = false
can_write world read = false
can_write world write = not (needs_write_approve world)
can_write world approve = true

-- What `authorize_write` and `authorize_delete` refuse with.
pub data AccessError : Type 0 where
  auth : AuthGate → AccessError
  append_only : AccessError

pub record WritePermit : Type 0 where
  pub world : Bytes
  pub gate : AuthGate

abbrev pub write_gate_of : Bytes → AuthGate
write_gate_of world = if needs_write_approve world then write_approve_gate else write_gate

unfoldable pub authorize_write : Bytes → Tier → Result AccessError WritePermit
unfolding can_write
authorize_write world tier =
    if can_write world tier
    then (if is_delete_ledger_world world
        then err append_only
        else ok (record { world = world; gate = write_gate_of world }))
    else err (auth (write_gate_of world))

-- The permit of a delete is the world itself.
unfoldable pub authorize_delete : Bytes → Tier → Result AccessError Bytes
unfolding can_delete
authorize_delete world tier =
    if not (can_delete tier)
    then err (auth delete_gate)
    else if is_delete_ledger_world world
    then err append_only
    else ok world
