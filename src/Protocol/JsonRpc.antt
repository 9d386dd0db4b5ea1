-- ===== src/Protocol/JsonRpc.antt =====
-- crates/chassis-protocol/src/jsonrpc.rs: identifiers, requests, responses and notifications.
use ai_garage.Common.{
  ◌≡◌, ◌↔◌, Bool, true, false, Option, none, some, Text, text, text_eq, text_eq_iff, arith,
}
use ai_garage.Int.{ℤ, int_eq, int_eq_iff, show_int}
use ai_garage.Protocol.RpcError.{RpcError}

pub data RequestId : Type 0 where
  number : ℤ → RequestId
  string : Text → RequestId

unfoldable pub id_eq : RequestId → RequestId → Bool
id_eq (number a) (number b) = int_eq a b
id_eq (number a) (string t) = false
id_eq (string s) (number b) = false
id_eq (string s) (string t) = text_eq s t

pub id_eq_iff : (a b : RequestId) → (id_eq a b ≡ true) ↔ (a ≡ b)
unfolding id_eq
id_eq_iff (number a) (number b) = ground (arith, int_eq_iff a b)
id_eq_iff (number a) (string t) = ground arith
id_eq_iff (string s) (number b) = ground arith
id_eq_iff (string s) (string t) = ground (arith, text_eq_iff s t)

-- `Display`
unfoldable pub show_id : RequestId → Text
show_id (number n) = show_int n
show_id (string s) = s

abbrev pub version_2 : Text
version_2 = text "2.0"

pub record Request (V : Type 0) : Type 0 where
  pub jsonrpc : Text
  pub id : RequestId
  pub method : Text
  pub params : Option V

pub record Response (V : Type 0) : Type 0 where
  pub jsonrpc : Text
  pub id : RequestId
  pub result : Option V
  pub error : Option (RpcError V)

pub record Notification (V : Type 0) : Type 0 where
  pub jsonrpc : Text
  pub method : Text
  pub params : Option V

module _ {V : Type 0} where
  unfoldable pub new_request : RequestId → Text → Option V → Request V
  new_request id method params = record {
    jsonrpc = version_2;
    id = id;
    method = method;
    params = params;
  }

  unfoldable pub success : RequestId → V → Response V
  success id result = record { jsonrpc = version_2; id = id; result = some result; error = none }

  unfoldable pub error_response : RequestId → RpcError V → Response V
  error_response id e = record { jsonrpc = version_2; id = id; result = none; error = some e }

  unfoldable pub new_notification : Text → Option V → Notification V
  new_notification method params = record { jsonrpc = version_2; method = method; params = params }

pub data Message (V : Type 0) : Type 0 where
  request : Request V → Message V
  response : Response V → Message V
  notification : Notification V → Message V
