-- ===== src/Process.antt =====
-- crates/chassis-core/src/process.rs: the transport of one plugin process. `Mux` is the state that
-- the handle and the reader task share, `step` is what one call or one line does to it. A waiter (the
-- receiving end of a oneshot channel) is the number of the call that made it.
pub mod Waiters
pub mod Spawning
pub mod Environment
pub mod Tree
pub mod Teardown
use ai_garage.Common.{
  ℕ, ◌+◌, ◌-◌, ◌%◌, ◌^◌, Bool, true, false, ltb, List, [], ◌∷◌, ◌++◌, map, Option, none, some, Text,
  text, trim, Result, ok, err, if◌then◌else◌,
}
use ai_garage.Int.{ℤ, pos, negsuc}
use ai_garage.Error.{CoreError, policy_violation}
use ai_garage.Protocol.RpcError
use ai_garage.Protocol.JsonRpc.{
  RequestId, number, id_eq, Request, Response, Notification, Message, request, response,
  notification, new_request, new_notification, error_response,
}
use ai_garage.Protocol.Framing.{Codec, ProtocolError, from_ndjson}

-- The map from the identifiers of the requests that wait to the waiters.
abbrev pub Pending : Type 0
Pending = List (RequestId × ℕ)

unfoldable pub find : RequestId → Pending → Option ℕ
find k [] = none
find k ((i, w) ∷ m) = if id_eq i k then some w else find k m

unfoldable pub put : RequestId → ℕ → Pending → Pending
put k v [] = (k, v) ∷ []
put k v ((i, w) ∷ m) = if id_eq i k then (k, v) ∷ m else (i, w) ∷ put k v m

unfoldable pub take_out : RequestId → Pending → Pending
take_out k [] = []
take_out k ((i, w) ∷ m) = let rest = take_out k m in if id_eq i k then rest else (i, w) ∷ rest

-- The number whose 64 bits these are.
unfoldable pub signed : ℕ → ℤ
signed n = if ltb n (2 ^ 63) then pos n else negsuc (2 ^ 64 - 1 - n)

unfoldable pub closed_message : Text → Text
closed_message plugin_id =
    text "Failed to send request to plugin '" ++ plugin_id ++ text "' (stdin closed)"

unfoldable pub terminated_message : Text → Text
terminated_message plugin_id =
    text "Plugin '" ++ plugin_id ++ text "' process terminated unexpectedly (stdio EOF)"

pub record Mux (V : Type 0) : Type 0 where
  pub plugin_id : Text
  pub pending : Pending
  -- `AtomicI64`, as its bits
  pub next_request_id : ℕ
  -- how many waiters were made
  pub made : ℕ
  -- the messages for the writer task
  pub sent : List (Message V)
  -- what the waiters got
  pub answered : List (ℕ × Response V)
  pub notified : List (Notification V)
  -- the requests of the plugin that went to the router
  pub reversed : List (Request V)
  -- the reader task has ended
  pub ended : Bool

module _ {V : Type 0} where
  unfoldable pub new_mux : Text → Mux V
  new_mux plugin_id = record {
    plugin_id = plugin_id;
    pending = [];
    next_request_id = 1;
    made = 0;
    sent = [];
    answered = [];
    notified = [];
    reversed = [];
    ended = false;
  }

  -- The state once the identifier is taken and the waiter stands in the map.
  unfoldable pub waiting : Mux V → Mux V
  waiting s = record s {
    pending = put (number (signed s.next_request_id)) s.made s.pending;
    next_request_id = (s.next_request_id + 1) % 2 ^ 64;
    made = s.made + 1;
  }

  -- `send_request` up to its wait: `accepted` is what the channel of the writer task answers.
  unfoldable pub send_request : Bool → Text → Option V → Mux V → Result CoreError ℕ × Mux V
  send_request accepted method params s =
      let id = number (signed s.next_request_id) in
      if accepted
      then (
        ok s.made,
        record (waiting s) { sent = s.sent ++ request (new_request id method params) ∷ [] },
      )
      else (
        err (policy_violation (closed_message s.plugin_id)),
        record (waiting s) { pending = take_out id (waiting s).pending },
      )

  unfoldable pub send_notification : Bool → Text → Option V → Mux V → Mux V
  send_notification accepted method params s =
      if accepted
      then record s { sent = s.sent ++ notification (new_notification method params) ∷ [] }
      else s

  -- A response goes to the waiter of its identifier, which leaves the map.
  unfoldable pub deliver : Response V → Mux V → Mux V
  deliver res s = elim (find res.id s.pending) [
    | none ↦ s
    | some w ↦ record s { pending = take_out res.id s.pending; answered = (w, res) ∷ s.answered }
  ]

  unfoldable pub unavailable : Text → RequestId × ℕ → ℕ × Response V
  unavailable plugin_id (id, w) =
      (w, error_response id (RpcError.plugin_unavailable (terminated_message plugin_id)))

  -- The end of the plugin's output: every request that waits is answered by an error.
  unfoldable pub drain : Mux V → Mux V
  drain s = record s {
    pending = [];
    answered = map (unavailable s.plugin_id) s.pending ++ s.answered;
    ended = true;
  }

  -- `has_reverse`: there is a channel to the router.
  unfoldable pub route : Bool → Message V → Mux V → Mux V
  route has_reverse (response res) s = deliver res s
  route has_reverse (notification n) s = record s { notified = n ∷ s.notified }
  route has_reverse (request req) s =
      if has_reverse then record s { reversed = req ∷ s.reversed } else s

-- What happens to a transport.
pub data Event (V : Type 0) : Type 0 where
  called noted : Bool → Text → Option V → Event V
  -- the router's answer to a request of the plugin
  replied : Bool → Response V → Event V
  line_read : Text → Event V
  input_ended : Event V

module _ {V : Type 0} (c : Codec V) (has_reverse : Bool) where
  -- One line of the plugin's output. Blank and malformed lines are passed over.
  unfoldable pub read_line : Text → Mux V → Mux V
  read_line line s = elim (from_ndjson c (trim line)) [ err e ↦ s | ok m ↦ route has_reverse m s ]

  unfoldable pub step : Event V → Mux V → Mux V
  step (called accepted method params) s = (send_request accepted method params s).1
  step (noted accepted method params) s = send_notification accepted method params s
  step (replied accepted res) s =
      if accepted then record s { sent = s.sent ++ response res ∷ [] } else s
  step (line_read line) s = if s.ended then s else read_line line s
  step input_ended s = if s.ended then s else drain s

  unfoldable pub run : List (Event V) → Mux V → Mux V
  run [] s = s
  run (e ∷ es) s = run es (step e s)
