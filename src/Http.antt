-- ===== src/Http.antt =====
-- internal/httpapi: what the handlers do between a decoded request and an encoded answer. The
-- request's query, its body and its cookies are read by the packages of Go; here they come as values.
pub mod Targets
pub mod Submission
pub mod Limits
pub mod Guards
pub mod Routes
pub mod Params
pub mod Paging
pub mod Lists
pub mod Answers
pub mod Handlers
mod Tests
mod RequestTests
use interface.Prelude.{ℕ, Bool, List, [], ◌∷◌}
use interface.Text.{Text}

-- internal/httpapi/response.go: the codes of an error
pub data ApiCode : Type 0 where
  bad_request unauthorized forbidden code_not_found conflict code_rate_limited unavailable
        internal_error invalid_filter timeout :
      ApiCode

-- An error of the API; the text of `Message` is left out.
pub record ApiError : Type 0 where
  pub code : ApiCode
  pub field : Text

-- internal/httpapi/params.go: the status that `fail` gives to a code
unfoldable pub fail_status : ApiCode → ℕ
fail_status bad_request = 400
fail_status unauthorized = 401
fail_status forbidden = 403
fail_status code_not_found = 404
fail_status conflict = 400
fail_status code_rate_limited = 400
fail_status unavailable = 503
fail_status internal_error = 500
fail_status invalid_filter = 400
fail_status timeout = 400
