-- ===== src/Errors.antt =====
-- errors.go: the error that a response code stands for.
use coap.Base.{
  ℕ, Option, none, some, ◌==◌, ltb, if◌then◌else◌, Error, bad_request, not_found, unauthorized,
  method_not_allowed, encoding_not_acceptable, internal_server_error, other_error,
}

-- The cases of the `switch`.
abbrev error_of : ℕ → Error
error_of code =
    if code == 128
    then bad_request
    else if code == 132
    then not_found
    else if code == 129
    then unauthorized
    else if code == 133
    then method_not_allowed
    else if code == 134
    then encoding_not_acceptable
    else if code == 160
    then internal_server_error
    else other_error code

-- `RspCodeToError`; `none` is nil.
unfoldable pub rsp_code_to_error : ℕ → Option Error
rsp_code_to_error code = if ltb code 100 then none else some (error_of code)
