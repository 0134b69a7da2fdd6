-- ===== src/Tests/Gates.antt =====
-- The theorems on credentials, gates, paths and preconditions, at small inputs.
use audite_db.Prelude.{◌≡◌, refl, ◌↔◌, none, some, [], ◌∷◌, ok}
use audite_db.Prelude.Text.{codes, eq_bytes, strip_prefix, starts_with}
use audite_db.Auth.{
  write, Tokens, WritePermit, write_gate, is_delete_ledger_world, needs_write_approve,
  exact_or_child, can_write, authorize_write, check_token_bytes,
}
use audite_db.Auth.Credentials.{Grants, check_token_bytes-Grants}
use audite_db.Auth.Gates.{Decision, authorize_write-Decision}
use audite_db.WorldPath.{from_canonical, canonicalize_path}
use audite_db.WorldPath.Accepted.{IsWorldPath, from_canonical_iff}
use audite_db.WorldPath.Canonical.{canonicalize_path_idem}
use audite_db.Etag.{Preconditions, any_tag, check_preconditions}
use audite_db.Etag.Matching.{IfMatch, IfNoneMatch, check_preconditions_iff}

abbrev two_tokens : Tokens
two_tokens = record {
  read_token = none;
  write_token = some (codes "w");
  approve_token = some (codes "a");
}

check_token_bytes-Grants_example :
    Grants two_tokens (codes "w") (check_token_bytes two_tokens (codes "w"))
check_token_bytes-Grants_example = check_token_bytes-Grants two_tokens (codes "w")

authorize_write-Decision_example :
    Decision (codes "etc/hosts") write (authorize_write (codes "etc/hosts") write)
authorize_write-Decision_example = authorize_write-Decision (codes "etc/hosts") write

abbrev permit_a : WritePermit
permit_a = record { world = codes "home/a"; gate = write_gate }

writes_a : authorize_write (codes "home/a") write ≡ ok permit_a
unfolding authorize_write can_write needs_write_approve exact_or_child is_delete_ledger_world
    eq_bytes strip_prefix starts_with
writes_a = refl

from_canonical_iff_example :
    (from_canonical (codes "home/a") ≡ ok (codes "home/a"))
    ↔ ((codes "home/a" ≡ codes "home/a") × IsWorldPath (codes "home/a"))
from_canonical_iff_example = from_canonical_iff (codes "home/a") (codes "home/a")

canonicalize_path_idem_example :
    canonicalize_path (canonicalize_path (codes "/notes/")) ≡ canonicalize_path (codes "/notes/")
canonicalize_path_idem_example = canonicalize_path_idem (codes "/notes/")

abbrev only_new : Preconditions
only_new = record { if_match = []; if_none_match = any_tag ∷ [] }

check_preconditions_iff_example :
    (check_preconditions only_new (some (codes "hmac-1")) ≡ ok tt)
    ↔ (IfMatch [] (some (codes "hmac-1")) × IfNoneMatch (any_tag ∷ []) (some (codes "hmac-1")))
check_preconditions_iff_example = check_preconditions_iff only_new (some (codes "hmac-1"))
