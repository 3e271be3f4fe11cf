-- ===== src/Errs.antt =====
-- open-switch/internal/errs/errs.go: the errors that the layers pass on.
use Prim.Native.String.{◌++◌ as str_append}
use open_voip.Base.{ℕ, String, Bool, true, false, if◌then◌else◌, ◌==◌}

-- The `Kind` of an API error.
pub data Kind : Type 0 where
  invalid_request unauthorized forbidden not_found conflict : Kind
  cursor_expired not_implemented internal_error : Kind

-- `APIError`, without the optional `Data` that a version conflict sends along.
pub record ApiError : Type 0 where
  pub kind : Kind
  pub code : String
  pub message : String
  pub http : ℕ

-- The sentinels of `errors.Is`.
pub data Sentinel : Type 0 where
  err_not_implemented err_invalid_request err_unauthorized err_forbidden err_not_found : Sentinel
  err_conflict : Sentinel

-- An error value: an API error, an error that wraps a sentinel, or any other with its text.
pub data Err : Type 0 where
  api : ApiError → Err
  wraps : Sentinel → String → Err
  other : String → Err

api_error : Kind → String → String → ℕ → ApiError
api_error k c m h = record { kind = k; code = c; message = m; http = h }

unfoldable pub invalid_request_error : String → ApiError
unfolding api_error
invalid_request_error m = api_error invalid_request "" m 400

unfoldable pub unauthorized_error : String → ApiError
unfolding api_error
unauthorized_error m = api_error unauthorized "" m 401

unfoldable pub forbidden_error : String → ApiError
unfolding api_error
forbidden_error m = api_error forbidden "" m 403

unfoldable pub not_found_error : String → ApiError
unfolding api_error
not_found_error m = api_error not_found "" m 404

unfoldable pub conflict_error : String → String → ApiError
unfolding api_error
conflict_error m c = api_error conflict c m 409

unfoldable pub version_conflict_error : String → ApiError
unfolding api_error
version_conflict_error m =
    api_error conflict "VERSION_MISMATCH" (if m == "" then "通话版本已变化" else m) 409

unfoldable pub cursor_expired_error : String → ApiError
unfolding api_error
cursor_expired_error m = api_error cursor_expired "CURSOR_EXPIRED" m 410

unfoldable pub unprocessable_error : String → String → ApiError
unfolding api_error
unprocessable_error m c = api_error invalid_request c m 422

unfoldable pub not_implemented_error : String → ApiError
unfolding api_error
not_implemented_error feature = api_error not_implemented "" (str_append feature "：尚未实现") 501

unfoldable pub internal_server_error : String → ApiError
unfolding api_error
internal_server_error m = api_error internal_error "" m 500

-- `err.Error()`: an API error shows its message, or its kind where that is empty.
kind_text : Kind → String
kind_text invalid_request = "invalid_request"
kind_text unauthorized = "unauthorized"
kind_text forbidden = "forbidden"
kind_text not_found = "not_found"
kind_text conflict = "conflict"
kind_text cursor_expired = "cursor_expired"
kind_text not_implemented = "not_implemented"
kind_text internal_error = "internal_error"

unfoldable pub error_text : Err → String
unfolding kind_text
error_text (api e) = if e.message == "" then kind_text e.kind else e.message
error_text (wraps _ t) = t
error_text (other t) = t

-- `AsAPIError` of an error that is not nil: the first sentinel that `errors.Is` finds decides.
unfoldable pub as_api_error : Err → ApiError
unfolding invalid_request_error unauthorized_error forbidden_error not_found_error conflict_error
    not_implemented_error internal_server_error
as_api_error (api e) = e
as_api_error (wraps err_not_implemented _) = not_implemented_error "功能"
as_api_error (wraps err_invalid_request t) = invalid_request_error t
as_api_error (wraps err_unauthorized _) = unauthorized_error "未认证或令牌失效"
as_api_error (wraps err_forbidden _) = forbidden_error "无权限"
as_api_error (wraps err_not_found _) = not_found_error "资源不存在"
as_api_error (wraps err_conflict t) = conflict_error t ""
as_api_error (other _) = internal_server_error "服务器内部错误"

-- `Unwrap` of an API error: the sentinel of its kind, if it has one.
unfoldable pub kind_sentinel : Kind → Sentinel → Bool
kind_sentinel invalid_request err_invalid_request = true
kind_sentinel unauthorized err_unauthorized = true
kind_sentinel forbidden err_forbidden = true
kind_sentinel not_found err_not_found = true
kind_sentinel conflict err_conflict = true
kind_sentinel not_implemented err_not_implemented = true
kind_sentinel _ _ = false

same_sentinel : Sentinel → Sentinel → Bool
same_sentinel err_not_implemented err_not_implemented = true
same_sentinel err_invalid_request err_invalid_request = true
same_sentinel err_unauthorized err_unauthorized = true
same_sentinel err_forbidden err_forbidden = true
same_sentinel err_not_found err_not_found = true
same_sentinel err_conflict err_conflict = true
same_sentinel _ _ = false

-- `errors.Is(err, sentinel)`.
unfoldable pub is_sentinel : Err → Sentinel → Bool
unfolding kind_sentinel same_sentinel
is_sentinel (api e) s = kind_sentinel e.kind s
is_sentinel (wraps w _) s = same_sentinel w s
is_sentinel (other _) s = false
