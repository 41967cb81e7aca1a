-- ===== src/Admin.antt =====
-- src/admin.rs: the token that guards the administrative routes.
pub mod Token
use sparkl_router.Common.{
  ℕ, Bool, true, false, not, ◌&&◌, Option, none, some, List, [], ◌∷◌, ◌==◌, if◌then◌else◌, Text,
  codes, strip_prefix, trim, text_eq,
}

-- The token of an Authorization header, if it has one of the two spellings of the scheme.
abbrev pub bearer_of : Text → Option Text
bearer_of header = elim (strip_prefix (codes "Bearer ") header) [
  | some token ↦ some token
  | none ↦ strip_prefix (codes "bearer ") header
]

unfoldable pub is_valid : Text → Option Text → Bool
unfolding trim
is_valid expected none = false
is_valid expected (some header) = elim (bearer_of header) [
  | none ↦ false
  | some token ↦ text_eq (trim token) expected
]

-- The status of the refusal, or `none` if the request goes on; the trimmed setting is given.
unfoldable pub check_token : Text → Option Text → Option ℕ
unfolding is_valid
check_token [] auth = some 500
check_token (c ∷ expected) auth = if not (is_valid (c ∷ expected) auth) then some 401 else none

unfoldable pub require_admin_token : Text → Option Text → Option ℕ
unfolding trim check_token
require_admin_token admin_token auth = check_token (trim admin_token) auth
