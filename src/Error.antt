-- ===== src/Error.antt =====
-- apps/api/src/error.rs: the errors of the API and the results that carry them.
use text.Mathlib.Text.{◌==◌ as str_eq}
use prosepect.Base.{
  ℕ, String, Option, none, some, ◌≡◌, Bool, true, false, ◌||◌, if◌then◌else◌, refl,
}
use prosepect.Base.Int.{ℤ}

-- A message: a literal, or one of the formats that the source fills in.
pub data Message : Type 0 where
  literal : String → Message
  -- "{what} changed since version {expected}; current version is {current}"
  changed_since : String → ℤ → ℕ → Message
  -- "{what} was not found"
  was_not_found : String → Message
  -- "{what} is not configured"
  is_not_configured : String → Message

-- What the server reads of a `sqlx::Error` that the database reports.
pub record DatabaseError : Type 0 where
  pub constraint : Option String
  pub code : Option String

pub data AppError : Type 0 where
  validation : Message → AppError
  invalid_request : ℕ → String → AppError
  unauthorized : AppError
  forbidden : String → AppError
  not_found : String → AppError
  route_not_found : AppError
  method_not_allowed : AppError
  conflict : Message → AppError
  not_configured : String → AppError
  integration : AppError
  -- `none` is an error of the driver that no database reports.
  database : Option DatabaseError → AppError

-- What the database answers to a row that breaks the constraint of the given SQLSTATE.
abbrev pub constraint_violation : String → String → AppError
constraint_violation state name =
    database (some (record { constraint = some name; code = some state }))

pub data AppResult {ℓ} (T : Type ℓ) : Type ℓ where
  err : AppError → AppResult T
  ok : T → AppResult T
  -- The handler panics, and its transaction is dropped.
  panicked : AppResult T

-- The `?` operator: the rest of the block runs on the value, and an error leaves the function.
infixl 5 ◌>>=◌ ◌>>◌
module _ {ℓ κ} {T : Type ℓ} {U : Type κ} where
  abbrev pub ◌>>=◌ : AppResult T → (T → AppResult U) → AppResult U
  ◌>>=◌ (err error) rest = err error
  ◌>>=◌ (ok value) rest = rest value
  ◌>>=◌ panicked rest = panicked

abbrev pub ◌>>◌ {κ} : {U : Type κ} → AppResult (Unit {0}) → AppResult U → AppResult U
◌>>◌ (err error) rest = err error
◌>>◌ (ok done) rest = rest
◌>>◌ panicked rest = panicked

-- `if test { return Err(error) }`
abbrev pub fail_if : Bool → AppError → AppResult (Unit {0})
fail_if true e = err e
fail_if false e = ok tt

-- `.ok_or(error)`
abbrev pub ok_or {ℓ} : {A : Type ℓ} → Option A → AppError → AppResult A
ok_or (some a) e = ok a
ok_or none e = err e

abbrev pub IsOk {ℓ} : {A : Type ℓ} → AppResult A → Type 0
IsOk (ok a) = Unit
IsOk (err e) = ⊥
IsOk panicked = ⊥

-- Where a block succeeds, its first step did.
module _ {ℓ κ} {T : Type ℓ} {U : Type κ} where
  pub >>=-eq-ok :
      (first : AppResult T) (rest : T → AppResult U) {result : U}
      → (first >>= rest) ≡ ok result
      → (value : T) × (first ≡ ok value) × (rest value ≡ ok result)
  >>=-eq-ok (err error) rest h = cc
  >>=-eq-ok (ok value) rest h = (value, refl, h)
  >>=-eq-ok panicked rest h = cc

pub fail_if-eq-ok {ℓ} :
    {B : Type ℓ} (t : Bool) (e : AppError) (k : AppResult B) {b : B}
    → (fail_if t e >> k) ≡ ok b
    → (t ≡ false) × (k ≡ ok b)
fail_if-eq-ok true e k h = cc
fail_if-eq-ok false e k h = (refl, h)

pub >>-eq-ok {ℓ} :
    {B : Type ℓ} (first : AppResult (Unit {0})) (k : AppResult B) {b : B}
    → (first >> k) ≡ ok b
    → (first ≡ ok tt) × (k ≡ ok b)
>>-eq-ok (err error) k h = cc
>>-eq-ok (ok done) k h = (refl, h)
>>-eq-ok panicked k h = cc

pub record ErrorResponse : Type 0 where
  pub status : ℕ
  pub code : String
  pub message : Message

is_quota : DatabaseError → Bool
is_quota e = elim e.constraint [ some name ↦ str_eq name "workspace_content_quota" | none ↦ false ]

is_serialization : DatabaseError → Bool
is_serialization e = elim e.code [
  | some state ↦ str_eq state "40P01" || str_eq state "40001"
  | none ↦ false
]

internal_error : ErrorResponse
internal_error = record {
  status = 500;
  code = "internal_error";
  message = literal "An internal error occurred";
}

-- `IntoResponse::into_response`
unfoldable pub into_response : AppError → ErrorResponse
unfolding is_quota is_serialization internal_error
into_response (validation m) = record { status = 422; code = "validation_error"; message = m }
into_response (invalid_request status m) = record {
  status = status;
  code = "invalid_request";
  message = literal m;
}
into_response unauthorized = record {
  status = 401;
  code = "authentication_required";
  message = literal "authentication is required";
}
into_response (forbidden m) = record { status = 403; code = "forbidden"; message = literal m }
into_response (not_found resource) = record {
  status = 404;
  code = "not_found";
  message = was_not_found resource;
}
into_response route_not_found = record {
  status = 404;
  code = "route_not_found";
  message = literal "route was not found";
}
into_response method_not_allowed = record {
  status = 405;
  code = "method_not_allowed";
  message = literal "method is not allowed for this route";
}
into_response (conflict m) = record { status = 409; code = "conflict"; message = m }
into_response (not_configured name) = record {
  status = 503;
  code = "integration_not_configured";
  message = is_not_configured name;
}
into_response integration = record {
  status = 502;
  code = "integration_error";
  message = literal "An external integration failed";
}
into_response (database none) = internal_error
into_response (database (some e)) =
    if is_quota e
    then record {
      status = 403;
      code = "content_quota_exceeded";
      message =
          literal "workspace content limit reached; delete unused content or contact the operator";
    }
    else if is_serialization e
    then record {
      status = 409;
      code = "conflict";
      message =
          literal "a concurrent workspace update was rolled back; refresh before trying again";
    }
    else internal_error
