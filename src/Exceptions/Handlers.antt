-- ===== src/Exceptions/Handlers.antt =====
-- app/core/exception_handlers.py and app/core/setup.py: what the application's own errors are
-- answered with.
use fair_drop.Common.{
  ℕ, ◌≤◌, ◌<◌, ◌≡◌, ◌≢◌, ◌⊎◌, refl, subst, inl, inr, ap, false, String, Option, none, some, arith,
  str_eq, str_eq_iff, if◌then◌else◌, Bool-cases,
}
use fair_drop.Exceptions.{
  Error, user_already_exists, seller_limit_exceeded, credentials_error, not_found, conflict,
  insufficient_inventory, permission_denied, verification_request_already_exists,
}

-- `JSONResponse`, with the detail of its content and one header at most.
pub record JsonResponse : Type 0 where
  pub status : ℕ
  pub detail : String
  pub header : Option (String × String)

-- The message of an error that is raised without one.
unfoldable pub default_message : Error → String
default_message seller_limit_exceeded = "Seller product listing limit exceeded"
default_message credentials_error = "Could not validate credentials"
default_message not_found = "Resource not found"
default_message conflict = "Resource conflict"
default_message insufficient_inventory = "Insufficient inventory"
default_message permission_denied = "Permission denied"
default_message verification_request_already_exists = "Verification request already exists"
default_message _ = ""

-- `AppError(message, headers)`: the headers of an error, which `CredentialsError` alone sets.
unfoldable pub headers : Error → Option (String × String)
headers credentials_error = some ("WWW-Authenticate", "Bearer")
headers _ = none

-- `str(exc) or fallback`
abbrev pub or_else : String → String → String
or_else message fallback = if str_eq message "" then fallback else message

abbrev answered : ℕ → String → Option (String × String) → JsonResponse
answered status detail header = record { status = status; detail = detail; header = header }

pub user_already_exists_handler : String → JsonResponse
user_already_exists_handler m = answered 400 (or_else m "User already exists") none

unfoldable pub credentials_error_handler : String → JsonResponse
unfolding headers
credentials_error_handler m =
    answered 401 (or_else m "Invalid credentials") (headers credentials_error)

pub not_found_error_handler : String → JsonResponse
not_found_error_handler m = answered 404 (or_else m "Resource not found") none

pub insufficient_inventory_error_handler : String → JsonResponse
insufficient_inventory_error_handler m = answered 400 (or_else m "Insufficient inventory") none

pub conflict_error_handler : String → JsonResponse
conflict_error_handler m = answered 409 (or_else m "Resource conflict") none

pub permission_denied_handler : String → JsonResponse
permission_denied_handler m = answered 403 (or_else m "Permission denied") none

pub verification_request_already_exists_handler : String → JsonResponse
verification_request_already_exists_handler m =
    answered 400 (or_else m "Verification request already exists") none

pub seller_limit_exceeded_handler : String → JsonResponse
seller_limit_exceeded_handler m = answered 400 (or_else m "Seller limit exceeded") none

-- `setup_exception_handlers`: the handler of an error, where one is registered.
unfoldable pub respond : Error → String → Option JsonResponse
unfolding user_already_exists_handler credentials_error_handler not_found_error_handler
    insufficient_inventory_error_handler conflict_error_handler permission_denied_handler
    verification_request_already_exists_handler seller_limit_exceeded_handler
respond user_already_exists m = some (user_already_exists_handler m)
respond credentials_error m = some (credentials_error_handler m)
respond conflict m = some (conflict_error_handler m)
respond not_found m = some (not_found_error_handler m)
respond insufficient_inventory m = some (insufficient_inventory_error_handler m)
respond permission_denied m = some (permission_denied_handler m)
respond verification_request_already_exists m = some (verification_request_already_exists_handler m)
respond seller_limit_exceeded m = some (seller_limit_exceeded_handler m)
respond _ m = none

-- What a response to a message has to be: a client error, a detail that is never empty and is the
-- message where there is one, and a challenge exactly where the status is 401.
abbrev pub IsInformative : String → JsonResponse → Type 0
IsInformative m r =
    ((400 ≤ r.status) × (r.status < 500))
    × (r.detail ≢ "")
    × ((m ≡ "") ⊎ (r.detail ≡ m))
    × (((r.status ≡ 401) × (r.header ≡ some ("WWW-Authenticate", "Bearer")))
        ⊎ ((r.status ≢ 401) × (r.header ≡ none)))

not_empty : (text : String) → str_eq text "" ≡ false → text ≢ ""
not_empty text h e = let f = ap (λ x. str_eq x "") e in ground arith

or_else-full :
    (m fallback : String)
    → str_eq fallback "" ≡ false
    → (or_else m fallback ≢ "") × ((m ≡ "") ⊎ (or_else m fallback ≡ m))
or_else-full m fallback h = elim (Bool-cases (str_eq m "")) [
  | inl empty ↦ (rw empty (not_empty fallback h), inl ((str_eq_iff m "").0 empty))
  | inr there ↦ (rw there (not_empty m there), inr (rw there))
]

-- A handler without headers.
plain :
    (m : String) (r : JsonResponse) (fallback : String) (status : ℕ)
    → 400 ≤ status
    → status < 500
    → status ≢ 401
    → str_eq fallback "" ≡ false
    → some (answered status (or_else m fallback) none) ≡ some r
    → IsInformative m r
plain m r fallback status low high other h same =
    let (full, message) = or_else-full m fallback h in
    let response : answered status (or_else m fallback) none ≡ r = cc in
    subst (IsInformative m) response ((low, high), full, message, inr (other, refl))

-- Every error of the application that has a handler is answered as a client error, with a detail that
-- is not empty and is the error's message where there is one, and with the challenge of RFC 6750
-- exactly where the status is 401.
pub respond-IsInformative :
    (e : Error) (m : String) (r : JsonResponse) → respond e m ≡ some r → IsInformative m r
unfolding respond headers
respond-IsInformative user_already_exists m r h =
    plain m r "User already exists" 400 (ground arith) (ground arith) (ground arith) refl h
respond-IsInformative credentials_error m r h =
    let (full, message) = or_else-full m "Invalid credentials" refl in
    let response : credentials_error_handler m ≡ r = cc in
    subst (IsInformative m) response ((ground arith, ground arith), full, message, inl (refl, refl))
respond-IsInformative conflict m r h =
    plain m r "Resource conflict" 409 (ground arith) (ground arith) (ground arith) refl h
respond-IsInformative not_found m r h =
    plain m r "Resource not found" 404 (ground arith) (ground arith) (ground arith) refl h
respond-IsInformative insufficient_inventory m r h =
    plain m r "Insufficient inventory" 400 (ground arith) (ground arith) (ground arith) refl h
respond-IsInformative permission_denied m r h =
    plain m r "Permission denied" 403 (ground arith) (ground arith) (ground arith) refl h
respond-IsInformative verification_request_already_exists m r h =
    plain m r "Verification request already exists" 400 (ground arith) (ground arith) (ground arith)
      refl h
respond-IsInformative seller_limit_exceeded m r h =
    plain m r "Seller limit exceeded" 400 (ground arith) (ground arith) (ground arith) refl h
respond-IsInformative e m r h = cc
