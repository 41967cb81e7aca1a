-- ===== src/Tests/Admin.antt =====
-- The theorem of Admin.antt at a concrete input.
use sparkl_router.Common.{◌≡◌, ◌↔◌, none, some, codes, trim}
use sparkl_router.Admin.{require_admin_token}
use sparkl_router.Admin.Token.{IsAuthorized, require_admin_token_iff}

require_admin_token_iff_example :
    (require_admin_token (codes " key ") (some (codes "Bearer key")) ≡ none)
    ↔ IsAuthorized (trim (codes " key ")) (some (codes "Bearer key"))
require_admin_token_iff_example =
    require_admin_token_iff (codes " key ") (some (codes "Bearer key"))
