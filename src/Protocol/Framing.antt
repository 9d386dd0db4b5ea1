-- ===== src/Protocol/Framing.antt =====
-- crates/chassis-protocol/src/jsonrpc.rs: `Message::to_ndjson` and `Message::from_ndjson`.
pub mod RoundTrip
use ai_garage.Common.{
  Option, none, some, Text, text, text_eq, trim, not, [], ◌∷◌, ◌++◌, Result, ok, err, if◌then◌else◌,
}
use ai_garage.Protocol.JsonRpc.{Message, request, response, notification, version_2}

-- `ProtocolError`, from crates/chassis-protocol/src/error.rs.
pub data ProtocolError : Type 0 where
  serialization : Text → ProtocolError
  invalid_version : Text → ProtocolError
  illegal_newline : ProtocolError
  empty_line : ProtocolError
  custom : Text → ProtocolError

-- The encoder and the decoder that serde derives for `Message`; an error is given by its text.
pub record Codec (V : Type 0) : Type 0 where
  pub encode : Message V → Result Text Text
  pub decode : Text → Result Text (Message V)

module _ {V : Type 0} where
  unfoldable pub version : Message V → Text
  version (request r) = r.jsonrpc
  version (response r) = r.jsonrpc
  version (notification n) = n.jsonrpc

  unfoldable pub check_version : Message V → Result ProtocolError (Message V)
  unfolding version
  check_version m =
      if text_eq (version m) version_2 then ok m else err (invalid_version (version m))

module _ {V : Type 0} (c : Codec V) where
  unfoldable pub to_ndjson : Message V → Result ProtocolError Text
  to_ndjson m = elim (c.encode m) [ err e ↦ err (serialization e) | ok json ↦ ok (json ++ 10 ∷ []) ]

  unfoldable pub from_trimmed : Text → Result ProtocolError (Message V)
  unfolding check_version
  from_trimmed [] = err empty_line
  from_trimmed (ch ∷ s) = elim (c.decode (ch ∷ s)) [
    | err e ↦ err (serialization e)
    | ok m ↦ check_version m
  ]

  unfoldable pub from_ndjson : Text → Result ProtocolError (Message V)
  unfolding from_trimmed trim
  from_ndjson line = from_trimmed (trim line)
