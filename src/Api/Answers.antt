-- ===== src/Api/Answers.antt =====
-- app/main.py: the exception handlers.
use migrate_app_backend.Base.{
  ℕ, String, Option, none, some, Result, ok, raise, out_of_fuel, Exception,
}

-- A response: the body that a route returned, the body of `_error_response`, the body of FastAPI for
-- an `HTTPException`, the refusal of a query's parameters; or none, of a request that still runs.
pub data Answer (A : Type 0) : Type 0 where
  success : (status_code : ℕ) → A → Answer A
  error_response : (status_code : ℕ) (error : String) (detail : Option String) → Answer A
  http_error : (status_code : ℕ) (detail : String) → Answer A
  unprocessable : Answer A
  no_answer : Answer A

abbrev pub detail_of : String → Option String
detail_of text = some text

-- the handler of an exception's class; for `HTTPException` it is FastAPI's
unfoldable pub handler : {A : Type 0} → Exception → Answer A
handler (Exception.value_error m) = Answer.error_response 400 "Validation error" (detail_of m)
handler (Exception.not_implemented m) = Answer.error_response 501 "Not implemented" (detail_of m)
handler (Exception.http_not_found m) = Answer.http_error 404 m
handler _ = Answer.error_response 500 "Internal server error" none

-- what a route with that status code answers
unfoldable pub answer : {A : Type 0} → ℕ → Result A → Answer A
unfolding handler
answer status_code (ok a) = Answer.success status_code a
answer status_code (raise exc) = handler exc
answer status_code out_of_fuel = Answer.no_answer
