-- ===== src/Common/Status.antt =====
-- The status codes of 722device/include/tls_com.h.
use mathlib.Core.Bool.{Bool, true, false, not}

-- `enum TLS_RESULT`.
pub data TlsResult : Type 0 where
  s_ok s_continue : TlsResult
  e_fail e_invalid_param e_invalid_data e_invalid_handle e_invalid_index : TlsResult
  e_invalid_address e_invalid_port e_notfound e_notsupport e_notready : TlsResult
  e_no_instance e_allocate e_resource e_socket e_bad_status e_bad_result e_timeout : TlsResult

-- `TlsResultOk`: the value is not negative.
abbrev pub result_ok : TlsResult → Bool
result_ok s_ok = true
result_ok s_continue = true
result_ok _ = false

-- `TlsResultFail`: the value is negative.
abbrev pub result_fail : TlsResult → Bool
result_fail r = not (result_ok r)
