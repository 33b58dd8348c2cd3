-- ===== src/Api.antt =====
-- backend/src/api: the handlers of the management interface, on the lists and the configuration.
pub mod Lists
pub mod Settings
pub mod Auth
pub mod Pages
pub mod Router
use denis.Base.{Bool, true, false, Option, none, some}
use denis.Text.{Str}

-- `axum::http::StatusCode`, as far as the program names it.
pub data StatusCode : Type 0 where
  internal_server_error bad_request not_found unauthorized service_unavailable : StatusCode

pub record ApiError : Type 0 where
  pub status : StatusCode
  pub message : Str

-- The body of every answer.
pub record ApiResponse (T : Type 0) : Type 0 where
  pub success : Bool
  pub data_ : Option T
  pub error : Option Str

unfoldable pub ok_response : {T : Type 0} → T → ApiResponse T
ok_response data_ = record { success = true; data_ = some data_; error = none }

unfoldable pub into_response : ApiError → StatusCode × ApiResponse (Unit {0})
into_response e = (e.status, record { success = false; data_ = none; error = some e.message })

unfoldable pub internal : Str → ApiError
internal e = record { status = internal_server_error; message = e }

unfoldable pub bad_request_error : Str → ApiError
bad_request_error e = record { status = bad_request; message = e }
