-- ===== src/Errs.antt =====
-- internal/errs/errs.go: the application's error value. What runtime.Caller finds out about the
-- call site is an argument.
use jumble.Shared.{ℕ, String, []}
use jumble.Go.Error.{AppError, Error, app}

-- The frame that runtime.Caller(1) reports: the function, and "file:line".
pub record Frame : Type 0 where
  pub func_name : String
  pub file_line : String

-- New, with the text that fmt.Sprintf makes
unfoldable pub new : Frame → ℕ → String → Error
new frame code message = app (record {
  code = code;
  message = message;
  func_name = frame.func_name;
  file_name = frame.file_line;
  fields = [];
})

-- (er *Error) Error
unfoldable pub error : AppError → String
error er = er.message
