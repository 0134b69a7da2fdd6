-- ===== src/Prelude/Utf8.antt =====
-- UTF-8 as `std::str::from_utf8` checks it, and the operations of `str` that read characters.
use audite_db.Prelude.Tests.{ltb, leb, ◌==◌, if◌then◌else◌}
use audite_db.Prelude.Text.{Bytes, codes}
use Prim.Native.Nat.{ℕ, zero, suc, ◌+◌, ◌-◌, ◌*◌, ◌/◌, ◌%◌}
use mathlib.Core.Path.{◌≡◌, refl}
use mathlib.Core.Bool.{Bool, ◌&&◌, ◌||◌}
use mathlib.Core.List.{List, [], ◌∷◌, ◌++◌, reverse}
use mathlib.Core.Option.{Option, none, some}
use mathlib.Core.Option

abbrev within : ℕ → ℕ → ℕ → Bool
within lo hi b = leb lo b && leb b hi

-- What a first byte announces: the bytes to come, its own bits, and the range of the next byte.
record Lead : Type 0 where
  need : ℕ
  bits : ℕ
  low : ℕ
  high : ℕ

lead : ℕ → Option Lead
lead b =
    if ltb b 0x80
    then some (record { need = 0; bits = b; low = 0x80; high = 0xbf })
    else if within 0xc2 0xdf b
    then some (record { need = 1; bits = b - 0xc0; low = 0x80; high = 0xbf })
    else if b == 0xe0
    then some (record { need = 2; bits = 0; low = 0xa0; high = 0xbf })
    else if b == 0xed
    then some (record { need = 2; bits = 0x0d; low = 0x80; high = 0x9f })
    else if within 0xe1 0xef b
    then some (record { need = 2; bits = b - 0xe0; low = 0x80; high = 0xbf })
    else if b == 0xf0
    then some (record { need = 3; bits = 0; low = 0x90; high = 0xbf })
    else if within 0xf1 0xf3 b
    then some (record { need = 3; bits = b - 0xf0; low = 0x80; high = 0xbf })
    else if b == 0xf4
    then some (record { need = 3; bits = 4; low = 0x80; high = 0x8f })
    else none

emit : ℕ → ℕ → Option (List ℕ) → Option (List ℕ)
emit zero c rest = Option.map (λ cs. c ∷ cs) rest
emit (suc k) c rest = rest

decode_loop : ℕ → ℕ → ℕ → ℕ → Bytes → Option (List ℕ)
decode_loop zero bits low high [] = some []
decode_loop (suc k) bits low high [] = none
decode_loop zero bits low high (b ∷ s) = elim (lead b) [
  | none ↦ none
  | some l ↦ emit l.need l.bits (decode_loop l.need l.bits l.low l.high s)
]
decode_loop (suc k) bits low high (b ∷ s) =
    let bits' = bits * 64 + (b - 0x80) in
    let rest = emit k bits' (decode_loop k bits' 0x80 0xbf s) in
    if within low high b then rest else none

-- The characters of a valid text; `none` where `from_utf8` fails.
unfoldable pub decode_utf8 : Bytes → Option (List ℕ)
unfolding decode_loop emit lead
decode_utf8 s = decode_loop 0 0 0 0 s

unfoldable pub encode_char : ℕ → Bytes
encode_char c =
    if ltb c 0x80
    then c ∷ []
    else if ltb c 0x800
    then (0xc0 + c / 64) ∷ (0x80 + c % 64) ∷ []
    else if ltb c 0x10000
    then (0xe0 + c / 4096) ∷ (0x80 + c / 64 % 64) ∷ (0x80 + c % 64) ∷ []
    else (0xf0 + c / 262144) ∷ (0x80 + c / 4096 % 64) ∷ (0x80 + c / 64 % 64) ∷ (0x80 + c % 64) ∷ []

unfoldable pub encode_utf8 : List ℕ → Bytes
unfolding encode_char
encode_utf8 [] = []
encode_utf8 (c ∷ cs) = encode_char c ++ encode_utf8 cs

-- `char::is_whitespace`: the Unicode property White_Space
unfoldable pub is_whitespace : ℕ → Bool
is_whitespace c =
    within 9 13 c
    || c == 0x20
    || c == 0x85
    || c == 0xa0
    || c == 0x1680
    || within 0x2000 0x200a c
    || c == 0x2028
    || c == 0x2029
    || c == 0x202f
    || c == 0x205f
    || c == 0x3000

-- `char::is_control`: the category Cc
unfoldable pub is_control : ℕ → Bool
is_control c = ltb c 0x20 || within 0x7f 0x9f c

drop_whitespace : List ℕ → List ℕ
drop_whitespace [] = []
drop_whitespace (c ∷ cs) = let rest = drop_whitespace cs in if is_whitespace c then rest else c ∷ cs

-- The characters of a value of type `str`, which is valid by its type.
unfoldable pub chars : Bytes → List ℕ
unfolding decode_utf8
chars s = elim (decode_utf8 s) [ none ↦ [] | some cs ↦ cs ]

-- `str::trim`
unfoldable pub trim : Bytes → Bytes
unfolding chars drop_whitespace encode_utf8 is_whitespace
trim s = encode_utf8 (reverse (drop_whitespace (reverse (drop_whitespace (chars s)))))

trim_padded : trim (codes "  ab c ") ≡ codes "ab c"
unfolding trim
trim_padded = refl

trim_wide : trim (0xe2 ∷ 0x80 ∷ 0x83 ∷ 0xc3 ∷ 0xa9 ∷ 0xc2 ∷ 0xa0 ∷ []) ≡ 0xc3 ∷ 0xa9 ∷ []
unfolding trim
trim_wide = refl

surrogate : decode_utf8 (0xed ∷ 0xa0 ∷ 0x80 ∷ []) ≡ none
unfolding decode_utf8
surrogate = refl
