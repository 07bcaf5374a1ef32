-- ===== src/Shared/InternalAuth.antt =====
-- shared/gestalt_shared/internal_auth.py: the check of the caller on internal endpoints.
use ecommerce_services.Common.{
  String, List, true, false, not, ◌||◌, ◌==◌, ◌≡◌, ◌≢◌, ◌⊎◌, inl, inr, refl, Text-cases, Bool-cases,
  if◌then◌else◌,
}
use ecommerce_services.Common.Dict.{contains}
use ecommerce_services.Shared.Errors.{Result, ok, err, AppError, app_error}
use Prim.Native.String.{◌++◌ as append}

abbrev invalid_token : AppError
invalid_token = app_error "FORBIDDEN" "Invalid internal service token" 403

abbrev not_authorized : String → AppError
not_authorized caller =
    app_error "FORBIDDEN"
      (append (append "Caller '" caller) "' is not authorized for this endpoint") 403

-- `make_internal_caller_dependency`: the function that it returns, over the two header values.
unfoldable pub require_internal_caller : String → List String → String → String → Result String
require_internal_caller shared_token allowed_callers x_internal_token x_internal_caller =
    if shared_token == "" || not (x_internal_token == shared_token)
    then err invalid_token
    else if contains x_internal_caller allowed_callers
    then ok x_internal_caller
    else err (not_authorized x_internal_caller)

-- What the check requires when it passes, and what is wrong when it does not.
abbrev pub Checks : String → List String → String → String → Type 0
Checks token allowed header caller =
    ((require_internal_caller token allowed header caller ≡ ok caller)
      × (token ≢ "")
      × (header ≡ token)
      × (contains caller allowed ≡ true))
    ⊎ ((e : AppError) × (require_internal_caller token allowed header caller ≡ err e)
        × (e.status_code ≡ 403)
        × ((token ≡ "") ⊎ (header ≢ token) ⊎ (contains caller allowed ≡ false)))

-- A request passes exactly when a token is configured, the header holds that token and the named
-- caller is on the endpoint's list; the dependency then returns the caller's name. Otherwise the
-- answer has status 403.
pub require_internal_caller_lem :
    (token : String) (allowed : List String) (header caller : String)
    → Checks token allowed header caller
unfolding require_internal_caller
require_internal_caller_lem token allowed header caller = elim (Text-cases token "") [
  | inl (unset, t) ↦ inr (invalid_token, rw t, refl, inl unset)
  | inr (is_set, t) ↦ elim (Text-cases header token) [
    | inr (wrong, h) ↦ inr (invalid_token, rw (t, h), refl, inr (inl wrong))
    | inl (right, h) ↦ elim (Bool-cases (contains caller allowed)) [
      | inl listed ↦ inl (rw (t, h, listed), is_set, right, listed)
      | inr other ↦ inr (not_authorized caller, rw (t, h, other), refl, inr (inr other))
    ]
  ]
]
