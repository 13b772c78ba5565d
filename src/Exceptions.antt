-- ===== src/Exceptions.antt =====
-- app/core/exceptions.py, and the errors that the database and the schemas raise. A service
-- method either returns or raises; what it wrote before a raise is rolled back with its session,
-- so a fallible method returns a `Result` that holds the new state on success alone. The texts of
-- the messages are not modelled.
pub mod Handlers
use fair_drop.Common.{
  ℕ, ◌≡◌, refl, ◌⊎◌, inl, inr, Bool, true, false, Option, none, some, List, [], ◌∷◌,
}

pub data Error : Type 0 where
  user_already_exists seller_limit_exceeded credentials_error not_found conflict : Error
  insufficient_inventory permission_denied verification_request_already_exists : Error
  -- The HTTPExceptions of app/shared/rate_limit.py, app/shared/decorators.py and the routes.
  rate_limit_exceeded missing_idempotency_key forbidden no_such_resource : Error
  -- FastAPI's `RequestValidationError`, of a body or a query that does not fit its schema.
  unprocessable : Error
  -- SQLAlchemy's `NoResultFound`, `MultipleResultsFound`, `IntegrityError` and `DataError`,
  -- pydantic's `ValidationError` and Python's `ValueError`
  no_result_found multiple_results_found integrity_error data_error : Error
  validation_error value_error : Error

-- What a method answers.
pub data Result {ℓ} (Answer : Type ℓ) : Type ℓ where
  err : Error → Result Answer
  ok : Answer → Result Answer

-- `if not found: raise reason`
abbrev pub or_raise {ℓ} : {Row : Type ℓ} → Option Row → Error → Result Row
or_raise (some row) reason = ok row
or_raise none reason = err reason

-- `result.scalar_one_or_none()`
abbrev pub scalar_one_or_none {ℓ} : {Row : Type ℓ} → List Row → Result (Option Row)
scalar_one_or_none [] = ok none
scalar_one_or_none (row ∷ []) = ok (some row)
scalar_one_or_none (row ∷ next ∷ rows) = err multiple_results_found

-- `if test: raise reason`
abbrev pub raise_if : Bool → Error → Result (Unit {0})
raise_if false reason = ok tt
raise_if true reason = err reason

-- A raise skips the statements below it.
infixl 5 ◌>>=◌
abbrev pub ◌>>=◌ {κ ℓ} :
    {Row : Type κ} {Answer : Type ℓ} → Result Row → (Row → Result Answer) → Result Answer
err reason >>= rest = err reason
ok row >>= rest = rest row

infixl 5 ◌>>◌
abbrev pub ◌>>◌ {ℓ} : {Answer : Type ℓ} → Result (Unit {0}) → Result Answer → Result Answer
err reason >> rest = err reason
ok tt >> rest = rest

pub Result-cases {ℓ} :
    {A : Type ℓ} (m : Result A) → ((a : A) × (m ≡ ok a)) ⊎ ((e : Error) × (m ≡ err e))
Result-cases (ok a) = inl (a, refl)
Result-cases (err e) = inr (e, refl)

-- A query whose result is one row, or none.
pub only_row {ℓ} :
    {Row : Type ℓ} (rows : List Row) (row : Row)
    → scalar_one_or_none rows ≡ ok (some row)
    → rows ≡ row ∷ []
only_row [] row h = cc
only_row (first ∷ []) row h = cc
only_row (first ∷ next ∷ rows) row h = cc

pub no_row {ℓ} : {Row : Type ℓ} (rows : List Row) → scalar_one_or_none rows ≡ ok none → rows ≡ []
no_row [] h = refl
no_row (row ∷ []) h = cc
no_row (row ∷ next ∷ rows) h = cc
