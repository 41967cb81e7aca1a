-- ===== src/Admin/Token.antt =====
-- Who passes the check of src/admin.rs.
use sparkl_router.Common.{
  ℕ, ◌≡◌, ◌≢◌, ◌↔◌, inl, inr, refl, true, Option, none, some, [], ◌∷◌, arith, Option-cases, Text,
  trim, text_eq, text_eq_sound, text_eq_refl,
}
use sparkl_router.Admin.{bearer_of, is_valid, check_token, require_admin_token}

-- A header whose trimmed token is the expected one, which is not empty.
pub record IsAuthorized (expected : Text) (auth : Option Text) : Type 0 where
  pub header : Text
  pub token : Text
  pub has_header : auth ≡ some header
  pub has_token : bearer_of header ≡ some token
  pub agrees : trim token ≡ expected
  pub configured : expected ≢ []

valid-IsAuthorized :
    (c : ℕ) (expected : Text) (auth : Option Text)
    → is_valid (c ∷ expected) auth ≡ true
    → IsAuthorized (c ∷ expected) auth
unfolding is_valid
valid-IsAuthorized c expected none h = absurd (ground arith)
valid-IsAuthorized c expected (some header) h = elim (Option-cases (bearer_of header)) [
  | inl e ↦ absurd (ground (arith, e))
  | inr (token, e) ↦
      let same : text_eq (trim token) (c ∷ expected) ≡ true = rw (← h) (rw (e, is_valid) refl) in
      record {
        header = header;
        token = token;
        has_header = refl;
        has_token = e;
        agrees = text_eq_sound (trim token) (c ∷ expected) same;
        configured = λ none_left. absurd (ground (arith, none_left));
      }
]

authorized_valid :
    (expected : Text) (auth : Option Text)
    → IsAuthorized expected auth
    → is_valid expected auth ≡ true
unfolding is_valid
authorized_valid expected auth a =
    rw (a.has_header, is_valid, a.has_token, a.agrees) (text_eq_refl expected)

pub is_valid_iff :
    (expected : Text) (auth : Option Text)
    → expected ≢ []
    → (is_valid expected auth ≡ true) ↔ IsAuthorized expected auth
is_valid_iff [] auth ne = absurd (ne refl)
is_valid_iff (c ∷ expected) auth ne =
    (valid-IsAuthorized c expected auth, authorized_valid (c ∷ expected) auth)

check_token_iff :
    (expected : Text) (auth : Option Text)
    → (check_token expected auth ≡ none) ↔ IsAuthorized expected auth
unfolding check_token
check_token_iff [] auth = ((λ h. absurd (ground (arith, h))), (λ a. absurd (a.configured refl)))
check_token_iff (c ∷ expected) auth = (
  (λ h. valid-IsAuthorized c expected auth (ground (arith, h))),
  (λ a. ground (arith, authorized_valid (c ∷ expected) auth a)),
)

-- A request passes exactly if the setting of the admin token is not blank and the header has, after
-- either spelling of the scheme, a token that is the setting, both being trimmed.
pub require_admin_token_iff :
    (admin_token : Text) (auth : Option Text)
    → (require_admin_token admin_token auth ≡ none) ↔ IsAuthorized (trim admin_token) auth
unfolding require_admin_token
require_admin_token_iff admin_token auth = check_token_iff (trim admin_token) auth
