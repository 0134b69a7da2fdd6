-- ===== src/Auth/Credentials.antt =====
-- `Tokens::check_token_bytes` of core/src/auth.rs.
use audite_db.Prelude.{◌≡◌, sym, ◌∙◌, ap, ◌↔◌, ◌≢◌, ◌⊎◌, true, false, Option, none, some, arith}
use audite_db.Prelude.Text.{Bytes, eq_bytes_iff}
use audite_db.Auth.{
  Tier, anon, read, write, approve, Tokens, is_valid_token, token_matches, check_token_bytes,
}
use audite_db.Auth.Compare.{ct_eq-eq_bytes}

pub token_matches_iff : (c : Bytes) (o : Option Bytes) → (token_matches c o ≡ true) ↔ (o ≡ some c)
unfolding token_matches
token_matches_iff c none = (λ e. cc, λ e. cc)
token_matches_iff c (some t) = (
  λ e. ap some (sym ((eq_bytes_iff c t).0 (sym (ct_eq-eq_bytes c t) ∙ e))),
  λ e. ct_eq-eq_bytes c t ∙ (eq_bytes_iff c t).1 (cc),
)

-- What a candidate is worth: nothing if it is empty or blank, and else the widest of the configured
-- tokens that it equals.
abbrev pub Grants : Tokens → Bytes → Tier → Type 0
Grants t c approve = (is_valid_token c ≡ true) × (t.approve_token ≡ some c)
Grants t c write = (is_valid_token c ≡ true) × (t.approve_token ≢ some c) × (t.write_token ≡ some c)
Grants t c read =
    (is_valid_token c ≡ true)
    × (t.approve_token ≢ some c)
    × (t.write_token ≢ some c)
    × (t.read_token ≡ some c)
Grants t c anon =
    (is_valid_token c ≡ false)
    ⊎ ((t.approve_token ≢ some c) × (t.write_token ≢ some c) × (t.read_token ≢ some c))

-- A candidate is given exactly the widest tier whose configured token it equals, and no tier above
-- anonymous if it is empty or blank.
pub check_token_bytes-Grants : (t : Tokens) (c : Bytes) → Grants t c (check_token_bytes t c)
unfolding check_token_bytes
check_token_bytes-Grants t c = ground (
  arith,
  token_matches_iff c t.approve_token,
  token_matches_iff c t.write_token,
  token_matches_iff c t.read_token,
)
