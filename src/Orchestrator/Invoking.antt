-- ===== src/Orchestrator/Invoking.antt =====
-- crates/plugins/chassis-orchestrator/src/agent.rs: the client that sends capability calls to the
-- kernel. What the kernel answers is a parameter: it may depend on all requests so far.
use ai_garage.Common.{
  ℕ, ◌+◌, ◌%◌, ◌^◌, Bool, List, [], ◌∷◌, ◌++◌, Option, none, some, Text, text, unwrap_or, Result,
  ok, err, if◌then◌else◌,
}
use ai_garage.Json.{Json}
use ai_garage.Protocol.JsonRpc.{RequestId, number, show_id, Request, Response, new_request}
use ai_garage.Protocol.Envelope.{method_capability_invoke}
use ai_garage.Process.{signed, put, take_out}

-- `next_id` counts modulo 2 ^ 64; `sent` lists the requests handed to the channel. The waiter of a
-- request bears the number of its identifier.
pub record Client (V : Type 0) : Type 0 where
  pub next_id : ℕ
  pub pending : List (RequestId × ℕ)
  pub sent : List (Request V)

-- Whether the channel takes the last of the requests, and its response; the channel of a response
-- can be dropped.
pub record Kernel (V : Type 0) : Type 0 where
  pub takes : List (Request V) → Bool
  pub reply : List (Request V) → Option (Response V)

unfoldable pub new_client : {V : Type 0} → Client V
new_client = record { next_id = 100; pending = []; sent = [] }

-- The result that a response holds.
unfoldable pub outcome_of : (j : Json) → Option (Response j.Value) → Result Text j.Value
outcome_of j none = err (text "Kernel dropped capability response channel")
outcome_of j (some resp) = elim resp.error [
  | some e ↦ err e.message
  | none ↦ ok (unwrap_or resp.result j.null)
]

module _ (j : Json) where
  unfoldable pub call_request : ℕ → Text → Text → j.Value → Request j.Value
  unfolding new_request
  call_request n capability method payload =
      let id = number (signed n) in
      new_request id method_capability_invoke (
        some (
          j.object (
            (text "call_id", j.string (text "call_" ++ show_id id))
            ∷ (text "capability", j.string capability)
            ∷ (text "method", j.string method)
            ∷ (text "payload", payload)
            ∷ [])))

  -- The waiter is put into the map and taken out again: by `invoke` where the channel is closed, by
  -- the reader of responses otherwise.
  unfoldable pub invoke :
      Kernel j.Value → Text → Text → j.Value → Client j.Value → Result Text j.Value × Client j.Value
  invoke kernel capability method payload c =
      let id = number (signed c.next_id) in
      let requests = c.sent ++ call_request c.next_id capability method payload ∷ [] in
      (
        if kernel.takes requests
            then outcome_of j (kernel.reply requests)
            else err (text "Failed to send request: kernel transport closed"),
        record {
          next_id = (c.next_id + 1) % 2 ^ 64;
          pending = take_out id (put id c.next_id c.pending);
          sent = requests;
        },
      )
