-- ===== src/WorldPath/Segments.antt =====
-- The segments that `validate_world_name` refuses.
use audite_db.Prelude.{
  ◌≡◌, refl, sym, ◌∙◌, ap, ◌↔◌, ◌⊎◌, inl, inr, true, false, [], ◌∷◌, ◌++◌, arith, Bool-cases,
  Option-cases, none, some, ◌==◌, drop, append-nil,
}
use audite_db.Prelude.Text.{Bytes, codes, eq_bytes}
use audite_db.WorldPath.{encoded_dot, strip_dot_token, is_dot_segment, is_empty}

-- The spellings of a dot: `.`, `%2e` and `%2E`.
abbrev pub IsDotToken : Bytes → Type 0
IsDotToken t = (t ≡ codes ".") ⊎ (t ≡ codes "%2e") ⊎ (t ≡ codes "%2E")

-- One dot or two, each in any of its spellings.
abbrev pub IsDotLike : Bytes → Type 0
IsDotLike s =
    IsDotToken s ⊎ ((t : Bytes) × (u : Bytes) × IsDotToken t × IsDotToken u × (s ≡ t ++ u))

encoded_dot_sound :
    (s : Bytes)
    → encoded_dot s ≡ true
    → (s ≡ codes "%2e" ++ drop 3 s) ⊎ (s ≡ codes "%2E" ++ drop 3 s)
unfolding encoded_dot eq_bytes
encoded_dot_sound [] e = cc
encoded_dot_sound (a ∷ []) e = ground arith
encoded_dot_sound (a ∷ b ∷ []) e = ground arith
encoded_dot_sound (a ∷ b ∷ c ∷ s) e = ground arith

strip_dot_token_sound :
    (s rest : Bytes) → strip_dot_token s ≡ some rest → (t : Bytes) × IsDotToken t × (s ≡ t ++ rest)
unfolding strip_dot_token eq_bytes
strip_dot_token_sound [] rest e = cc
strip_dot_token_sound (c ∷ s) rest e = elim (Bool-cases (c == b'.')) [
  | inl plain ↦ (codes ".", inl refl, ground arith)
  | inr other ↦ elim (Bool-cases (encoded_dot (c ∷ s))) [
    | inl coded ↦ encoded (encoded_dot_sound (c ∷ s) coded) (drop_rest other coded e)
    | inr neither ↦ ground arith
  ]
]
  where
    drop_rest :
        (c == b'.') ≡ false
        → encoded_dot (c ∷ s) ≡ true
        → strip_dot_token (c ∷ s) ≡ some rest
        → drop 3 (c ∷ s) ≡ rest
    drop_rest other coded e = ground arith

    encoded :
        ((c ∷ s ≡ codes "%2e" ++ drop 3 (c ∷ s)) ⊎ (c ∷ s ≡ codes "%2E" ++ drop 3 (c ∷ s)))
        → drop 3 (c ∷ s) ≡ rest
        → (t : Bytes) × IsDotToken t × (c ∷ s ≡ t ++ rest)
    encoded (inl h) r = (codes "%2e", inr (inl refl), h ∙ ap (λ u. codes "%2e" ++ u) r)
    encoded (inr h) r = (codes "%2E", inr (inr refl), h ∙ ap (λ u. codes "%2E" ++ u) r)

strip_dot_token-append : (t rest : Bytes) → IsDotToken t → strip_dot_token (t ++ rest) ≡ some rest
unfolding strip_dot_token encoded_dot eq_bytes
strip_dot_token-append t rest (inl e) = rw e
strip_dot_token-append t rest (inr (inl e)) = rw e
strip_dot_token-append t rest (inr (inr e)) = rw e

is_empty-eq : (s : Bytes) → is_empty s ≡ true → s ≡ []
is_empty-eq [] h = refl
is_empty-eq (c ∷ s) h = cc

single : (s : Bytes) → (t : Bytes) × IsDotToken t × (s ≡ t ++ []) → IsDotLike s
single s (t, d, q) = inl (rw (q ∙ append-nil t) d)

double :
    (s rest : Bytes)
    → (t : Bytes) × IsDotToken t × (s ≡ t ++ rest)
    → (u : Bytes) × IsDotToken u × (rest ≡ u ++ [])
    → IsDotLike s
double s rest (t, d, q) (u, d', q') = inr (t, u, d, d', q ∙ ap (λ v. t ++ v) (q' ∙ append-nil u))

after_sound :
    (s rest : Bytes) → strip_dot_token s ≡ some rest → is_dot_segment s ≡ true → IsDotLike s
unfolding is_dot_segment
after_sound s [] e h = single s (strip_dot_token_sound s [] e)
after_sound s (c ∷ rest) e h = elim (Option-cases (strip_dot_token (c ∷ rest))) [
  | inl missing ↦ ground arith
  | inr (tail, found) ↦
      let empty : tail ≡ [] = is_empty-eq tail (ground arith) in
      double s (c ∷ rest) (strip_dot_token_sound s (c ∷ rest) e)
        (strip_dot_token_sound (c ∷ rest) [] (found ∙ ap some empty))
]

is_dot_segment_sound : (s : Bytes) → is_dot_segment s ≡ true → IsDotLike s
unfolding is_dot_segment
is_dot_segment_sound s h = elim (Option-cases (strip_dot_token s)) [
  | inl missing ↦ absurd (nothing missing h)
  | inr (rest, found) ↦ after_sound s rest found h
]
  where
    nothing : strip_dot_token s ≡ none → is_dot_segment s ≡ true → ⊥
    nothing missing h = ground arith

is_dot_segment_complete : (s : Bytes) → IsDotLike s → is_dot_segment s ≡ true
unfolding is_dot_segment
is_dot_segment_complete s (inl d) =
    let e = strip_dot_token-append s [] d in
    let e' : strip_dot_token s ≡ some [] = ap strip_dot_token (sym (append-nil s)) ∙ e in
    ground arith
is_dot_segment_complete s (inr (t, u, d, d', q)) =
    let e : strip_dot_token s ≡ some u = ap strip_dot_token q ∙ strip_dot_token-append t u d in
    let e' : strip_dot_token u ≡ some [] =
      ap strip_dot_token (sym (append-nil u)) ∙ strip_dot_token-append u [] d' in
    ground arith

-- A segment is refused exactly if it is one dot or two, each in any of its spellings.
pub is_dot_segment_iff : (s : Bytes) → (is_dot_segment s ≡ true) ↔ IsDotLike s
is_dot_segment_iff s = (is_dot_segment_sound s, is_dot_segment_complete s)
