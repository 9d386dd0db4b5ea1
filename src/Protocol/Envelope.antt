-- ===== src/Protocol/Envelope.antt =====
-- crates/chassis-protocol/src/envelope.rs: the payloads of capability calls.
use ai_garage.Common.{ℕ, Bool, Text, text}

abbrev pub method_capability_invoke : Text
method_capability_invoke = text "capability/invoke"

abbrev pub method_capability_stream_chunk : Text
method_capability_stream_chunk = text "capability/stream_chunk"

abbrev pub method_capability_abort : Text
method_capability_abort = text "capability/abort"

pub record InvokeRequest (V : Type 0) : Type 0 where
  pub call_id : Text
  pub capability : Text
  pub method : Text
  pub payload : V

pub record StreamChunkNotification (V : Type 0) : Type 0 where
  pub call_id : Text
  pub sequence : ℕ
  pub chunk : V
  pub is_final : Bool

pub record AbortNotification : Type 0 where
  pub call_id : Text
  pub reason : Text

pub record BlobRef : Type 0 where
  pub blob : Text
  pub mime_type : Text
  pub byte_length : ℕ
