-- ===== src/Protocol/RpcError.antt =====
-- crates/chassis-protocol/src/error.rs: the error codes and the JSON-RPC error object.
use ai_garage.Common.{Option, none, some, Text}
use ai_garage.Int.{ℤ, negsuc}

-- `negsuc n` is -(n + 1), so `negsuc 32699` is -32700.
abbrev pub parse_error_code : ℤ
parse_error_code = negsuc 32699

abbrev pub invalid_request_code : ℤ
invalid_request_code = negsuc 32599

abbrev pub method_not_found_code : ℤ
method_not_found_code = negsuc 32600

abbrev pub invalid_params_code : ℤ
invalid_params_code = negsuc 32601

abbrev pub internal_error_code : ℤ
internal_error_code = negsuc 32602

abbrev pub policy_violation_code : ℤ
policy_violation_code = negsuc 32000

abbrev pub capability_not_found_code : ℤ
capability_not_found_code = negsuc 32001

abbrev pub plugin_unavailable_code : ℤ
plugin_unavailable_code = negsuc 32002

abbrev pub execution_timeout_code : ℤ
execution_timeout_code = negsuc 32003

abbrev pub user_rejected_code : ℤ
user_rejected_code = negsuc 32004

-- `V` is the type of JSON values.
pub record RpcError (V : Type 0) : Type 0 where
  pub code : ℤ
  pub message : Text
  pub error_data : Option V

module _ {V : Type 0} where
  unfoldable pub new : ℤ → Text → RpcError V
  new code message = record { code = code; message = message; error_data = none }

  unfoldable pub with_data : RpcError V → V → RpcError V
  with_data e v = record e { error_data = some v }

  unfoldable pub parse_error : Text → RpcError V
  unfolding new
  parse_error msg = new parse_error_code msg

  unfoldable pub invalid_request : Text → RpcError V
  unfolding new
  invalid_request msg = new invalid_request_code msg

  unfoldable pub method_not_found : Text → RpcError V
  unfolding new
  method_not_found msg = new method_not_found_code msg

  unfoldable pub invalid_params : Text → RpcError V
  unfolding new
  invalid_params msg = new invalid_params_code msg

  unfoldable pub internal_error : Text → RpcError V
  unfolding new
  internal_error msg = new internal_error_code msg

  unfoldable pub policy_violation : Text → RpcError V
  unfolding new
  policy_violation msg = new policy_violation_code msg

  unfoldable pub capability_not_found : Text → RpcError V
  unfolding new
  capability_not_found msg = new capability_not_found_code msg

  unfoldable pub plugin_unavailable : Text → RpcError V
  unfolding new
  plugin_unavailable msg = new plugin_unavailable_code msg

  unfoldable pub execution_timeout : Text → RpcError V
  unfolding new
  execution_timeout msg = new execution_timeout_code msg

  unfoldable pub user_rejected : Text → RpcError V
  unfolding new
  user_rejected msg = new user_rejected_code msg
