-- ===== src/Api/Errors.antt =====
-- app/internal/apperror: the errors of the handlers and the replies that they become.
use tasks_service.Prelude.{ℕ, String, Option, none, some}

pub record AppError : Type 0 where
  pub message : String
  pub developer_message : String
  pub code : String

-- What a handler returns: an AppError, which may be ErrNotFound itself, or another error. Either
-- may stand wrapped in others.
pub data HandlerError : Type 0 where
  not_found : HandlerError
  app : AppError → HandlerError
  other : String → HandlerError

abbrev pub err_not_found : AppError
err_not_found = record { message = "not found"; developer_message = ""; code = "RAT-000300" }

abbrev pub bad_request : String → String → AppError
bad_request message developer_message = record {
  message = message;
  developer_message = developer_message;
  code = "RAT-000001";
}

abbrev pub system_error : String → AppError
system_error text = record {
  message = "system error";
  developer_message = text;
  code = "RAT-000000";
}

-- The status and the error in the body; none where the handler returned no error and has replied.
unfoldable pub error_reply : Option HandlerError → Option (ℕ × AppError)
error_reply none = none
error_reply (some not_found) = some (404, err_not_found)
error_reply (some (app e)) = some (400, e)
error_reply (some (other text)) = some (500, system_error text)
