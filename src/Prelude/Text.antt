-- ===== src/Prelude/Text.antt =====
-- A Rust `str` or `[u8]` as the list of its bytes, and the standard library's operations on it.
use Prim.Native.Char.{code}
use Prim.Native.String.{String}
use Prim.Native.Nat.{ℕ, ◌+◌}
use audite_db.Prelude.Tests.{ltb, leb, ◌==◌, if◌then◌else◌}
use audite_db.Prelude.Lists.{any}
use mathlib.Core.Path.{◌≡◌, refl}
use mathlib.Core.Bool.{Bool, true, false, ◌&&◌, ◌||◌}
use mathlib.Core.Logic.{◌↔◌}
use mathlib.Core.List.{List, [], ◌∷◌, ◌++◌, map}
use mathlib.Core.Option.{Option, none, some}
use native.Mathlib.Omega.{arith}

abbrev pub Bytes : Type 0
Bytes = List ℕ

-- The bytes of a literal in ASCII.
abbrev pub codes : String → Bytes
codes String.[] = []
codes (String.◌∷◌ c s) = code c ∷ codes s

unfoldable pub eq_bytes : Bytes → Bytes → Bool
eq_bytes [] [] = true
eq_bytes [] (b ∷ t) = false
eq_bytes (a ∷ s) [] = false
eq_bytes (a ∷ s) (b ∷ t) = a == b && eq_bytes s t

pub eq_bytes_sound : (s t : Bytes) → eq_bytes s t ≡ true → s ≡ t
unfolding eq_bytes
eq_bytes_sound [] [] h = refl
eq_bytes_sound [] (b ∷ t) h = cc
eq_bytes_sound (a ∷ s) [] h = cc
eq_bytes_sound (a ∷ s) (b ∷ t) h = ground (arith, eq_bytes_sound s t)

pub eq_bytes_refl : (s : Bytes) → eq_bytes s s ≡ true
unfolding eq_bytes
eq_bytes_refl [] = refl
eq_bytes_refl (a ∷ s) = ground (arith, eq_bytes_refl s)

pub eq_bytes_iff : (s t : Bytes) → (eq_bytes s t ≡ true) ↔ (s ≡ t)
eq_bytes_iff s t = (
  eq_bytes_sound s t,
  λ e. mathlib.Core.Path.subst (λ u. eq_bytes s u ≡ true) e (eq_bytes_refl s),
)

-- `s.strip_prefix(prefix)`, the prefix first
unfoldable pub strip_prefix : Bytes → Bytes → Option Bytes
strip_prefix [] s = some s
strip_prefix (p ∷ ps) [] = none
strip_prefix (p ∷ ps) (c ∷ s) = let rest = strip_prefix ps s in if p == c then rest else none

unfoldable pub starts_with : Bytes → Bytes → Bool
starts_with [] s = true
starts_with (p ∷ ps) [] = false
starts_with (p ∷ ps) (c ∷ s) = p == c && starts_with ps s

pub strip_prefix-append : (p s : Bytes) → strip_prefix p (p ++ s) ≡ some s
unfolding strip_prefix
strip_prefix-append [] s = refl
strip_prefix-append (c ∷ p) s = ground (arith, strip_prefix-append p s)

pub strip_prefix_sound : (p s rest : Bytes) → strip_prefix p s ≡ some rest → s ≡ p ++ rest
unfolding strip_prefix
strip_prefix_sound [] s rest h = cc
strip_prefix_sound (p ∷ ps) [] rest h = absurd (cc)
strip_prefix_sound (p ∷ ps) (c ∷ s) rest h = ground (arith, strip_prefix_sound ps s rest)

-- `s.contains(c)` for one byte
abbrev pub contains : ℕ → Bytes → Bool
contains c s = any (λ b. b == c) s

-- The segments of `s.split(c)`: the one that is being read first, then the rest.
unfoldable pub split : ℕ → Bytes → Bytes × List Bytes
split c [] = ([], [])
split c (b ∷ s) =
    let (seg, rest) = split c s in if b == c then ([], seg ∷ rest) else (b ∷ seg, rest)

unfoldable pub segments : ℕ → Bytes → List Bytes
unfolding split
segments c s = let (seg, rest) = split c s in seg ∷ rest

abbrev pub is_ascii_digit : ℕ → Bool
is_ascii_digit c = leb b'0' c && leb c b'9'

-- `is_lower_hex` of timeline.rs and world_generation.rs: digits and `a` to `f`
abbrev pub is_lower_hex_digit : ℕ → Bool
is_lower_hex_digit c = is_ascii_digit c || (leb b'a' c && leb c b'f')

abbrev pub to_ascii_lowercase_byte : ℕ → ℕ
to_ascii_lowercase_byte c = if leb b'A' c && leb c b'Z' then c + 32 else c

abbrev pub to_ascii_lowercase : Bytes → Bytes
to_ascii_lowercase = map to_ascii_lowercase_byte

-- `str::cmp` and SQLite's BINARY collation: byte by byte
unfoldable pub leb_bytes : Bytes → Bytes → Bool
leb_bytes [] t = true
leb_bytes (a ∷ s) [] = false
leb_bytes (a ∷ s) (b ∷ t) =
    let rest = leb_bytes s t in if ltb a b then true else if a == b then rest else false
