-- ===== src/Router/Reverse.antt =====
-- crates/chassis-core/src/router.rs: the requests that a plugin sends to the kernel. A request is
-- dispatched only if it is a capability invocation; its answer always bears its identifier.
use ai_garage.Common.{
  ◌≡◌, Bool, true, false, List, [], ◌∷◌, ◌++◌, Option, none, some, Text, text, text_eq, Result, ok,
  err, ◌⊎◌, text_eq_iff, Bool-cases, Result-cases, Option-cases, refl, if◌then◌else◌, inl, inr,
  arith,
}
use ai_garage.Json.{Json}
use ai_garage.Error.{CoreError, Fault, failed, panic}
use ai_garage.Error
use ai_garage.Protocol.RpcError
use ai_garage.Protocol.RpcError.{RpcError}
use ai_garage.Protocol.JsonRpc.{RequestId, show_id, Request, Response, error_response}
use ai_garage.Protocol.Envelope.{InvokeRequest, method_capability_invoke}
use ai_garage.Paths.{FileSystem}
use ai_garage.Wal.{Codec, Disk, WalWriter}
use ai_garage.Router.{CapabilityRouter, Effect, dispatch}

-- `is_empty()` on a text
unfoldable pub is_empty_text : Text → Bool
is_empty_text [] = true
is_empty_text (c ∷ s) = false

-- The call under the identifier of its request, where it has none.
unfoldable pub with_call_id : {V : Type 0} → RequestId → InvokeRequest V → InvokeRequest V
with_call_id id q = if is_empty_text q.call_id then record q { call_id = show_id id } else q

is_empty_text-eq : (s : Text) → is_empty_text s ≡ text_eq s []
unfolding is_empty_text text_eq
is_empty_text-eq [] = refl
is_empty_text-eq (c ∷ s) = refl

module _ (j : Json) (fs : FileSystem) (r : CapabilityRouter)
    (answer : Text → InvokeRequest j.Value → Result CoreError (Response j.Value))
    (c : Codec j.Value) (disk : Disk) (now : Text)
    (decode : j.Value → Result Text (InvokeRequest j.Value)) where
  -- The response, the log's writer, and what was done; a panic of the dispatch ends the task.
  abbrev pub Outcome : Type 0
  Outcome = Result Fault (Response j.Value) × Option WalWriter × List (Effect j.Value)

  -- `serde_json::from_value(params)`, with the text of its error
  unfoldable pub decoded : Option j.Value → Result Text (InvokeRequest j.Value)
  decoded none = err (text "Missing params")
  decoded (some v) = decode v

  unfoldable pub respond :
      RequestId → Result Fault (Response j.Value) → Result Fault (Response j.Value)
  respond id (ok resp) = ok (record resp { id = id })
  respond id (err (failed e)) = ok (error_response id (RpcError.internal_error (Error.show e)))
  respond id (err panic) = err panic

  unfoldable pub invoke_reverse :
      Text → RequestId → Option WalWriter → InvokeRequest j.Value → Outcome
  invoke_reverse caller_id id wal q =
      let (result, wal', done) =
        dispatch j fs r answer c disk now caller_id (with_call_id id q) wal in
      (respond id result, wal', done)

  unfoldable pub handle_reverse_request : Text → Request j.Value → Option WalWriter → Outcome
  handle_reverse_request caller_id req wal =
      if text_eq req.method method_capability_invoke
      then elim (decoded req.params) [
        | ok q ↦ invoke_reverse caller_id req.id wal q
        | err e ↦ (
          ok (
              error_response req.id
                (RpcError.invalid_params (text "Invalid InvokeRequest: " ++ e))),
          wal,
          [],
        )
      ]
      else (
        ok (
            error_response req.id (
              RpcError.method_not_found
                (text "Unknown kernel method '" ++ req.method ++ text "'"))),
        wal,
        [],
      )

  respond-id :
      (id : RequestId) (m : Result Fault (Response j.Value)) (resp : Response j.Value)
      → respond id m ≡ ok resp
      → resp.id ≡ id
  unfolding respond error_response
  respond-id id (ok a) resp h = ground arith
  respond-id id (err (failed e)) resp h = ground arith
  respond-id id (err panic) resp h = cc

  -- The response to a plugin's request bears the identifier of the request, on every branch.
  pub handle_reverse_request-id :
      (caller_id : Text) (req : Request j.Value) (wal : Option WalWriter) (resp : Response j.Value)
      → (handle_reverse_request caller_id req wal).0 ≡ ok resp
      → resp.id ≡ req.id
  unfolding handle_reverse_request invoke_reverse error_response
  handle_reverse_request-id caller_id req wal resp h =
      elim (Bool-cases (text_eq req.method method_capability_invoke)) [
        | inr e ↦ ground arith
        | inl e ↦ elim (Result-cases (decoded req.params)) [
          | inr (x, f) ↦ ground arith
          | inl (q, f) ↦
              respond-id req.id
                (dispatch j fs r answer c disk now caller_id (with_call_id req.id q) wal).0 resp
                (ground arith)
        ]
      ]

  -- An error under the identifier of the request, and nothing else.
  abbrev pub Rejected : Request j.Value → Option WalWriter → Outcome → Type 0
  Rejected req wal (result, wal', acts) =
      ((e : RpcError j.Value) × (result ≡ ok (error_response req.id e)))
      × (wal' ≡ wal)
      × (acts ≡ [])

  -- How the result of a dispatch goes back to the plugin: an answer gets the identifier of the request,
  -- a failure becomes an internal error under it.
  abbrev pub Relayed :
      RequestId → Result Fault (Response j.Value) → Result Fault (Response j.Value) → Type 0
  Relayed id (ok resp) result = result ≡ ok (record resp { id = id })
  Relayed id (err (failed e)) result =
      result ≡ ok (error_response id (RpcError.internal_error (Error.show e)))
  Relayed id (err panic) result = result ≡ err panic

  -- The parameters are the call, but for its identifier, which is that of the request if it is empty.
  abbrev pub Invokes : Request j.Value → InvokeRequest j.Value → Type 0
  Invokes req q =
      (v : j.Value) × (sent : InvokeRequest j.Value) × (req.params ≡ some v)
      × (decode v ≡ ok sent)
      × (q ≡ record sent {
        call_id = if text_eq sent.call_id [] then show_id req.id else sent.call_id;
      })

  respond-Relayed :
      (id : RequestId) (m : Result Fault (Response j.Value)) → Relayed id m (respond id m)
  unfolding respond
  respond-Relayed id (ok resp) = refl
  respond-Relayed id (err (failed e)) = refl
  respond-Relayed id (err panic) = refl

  with_call_id_lem :
      (id : RequestId) (q : InvokeRequest j.Value)
      → with_call_id id q
        ≡ record q { call_id = if text_eq q.call_id [] then show_id id else q.call_id }
  unfolding with_call_id
  with_call_id_lem id q = elim (Bool-cases (text_eq q.call_id [])) [
    | inl e ↦ rw (with_call_id, is_empty_text-eq q.call_id, e) refl
    | inr e ↦ rw (with_call_id, is_empty_text-eq q.call_id, e) refl
  ]

  decoded-Invokes :
      (req : Request j.Value) (q : InvokeRequest j.Value)
      → decoded req.params ≡ ok q
      → Invokes req (with_call_id req.id q)
  unfolding decoded
  decoded-Invokes req q h = elim (Option-cases req.params) [
    | inl e ↦ absurd (ground arith)
    | inr (v, e) ↦ (v, q, e, ground arith, with_call_id_lem req.id q)
  ]

  -- A request of a plugin is answered by an error and changes nothing; or it is a capability
  -- invocation, and has what the dispatch of its call, for the same caller, does to the world and to
  -- the log, and the result of that dispatch as its answer, under its own identifier.
  pub handle_reverse_request_effects :
      (caller_id : Text) (req : Request j.Value) (wal : Option WalWriter)
      → Rejected req wal (handle_reverse_request caller_id req wal)
        ⊎ ((q : InvokeRequest j.Value) × (req.method ≡ method_capability_invoke)
            × Invokes req q
            × (let (result, wal', acts) = handle_reverse_request caller_id req wal in
                let (done, wal1, acts1) = dispatch j fs r answer c disk now caller_id q wal in
                Relayed req.id done result × (wal' ≡ wal1) × (acts ≡ acts1)))
  unfolding handle_reverse_request invoke_reverse
  handle_reverse_request_effects caller_id req wal =
      elim (Bool-cases (text_eq req.method method_capability_invoke)) [
        | inr e ↦ inl (rw (handle_reverse_request, e) ((_, refl), refl, refl))
        | inl e ↦ elim (Result-cases (decoded req.params)) [
          | inr (x, f) ↦ inl (rw (handle_reverse_request, e, f) ((_, refl), refl, refl))
          | inl (q, f) ↦ inr (
            with_call_id req.id q,
            (text_eq_iff req.method method_capability_invoke).0 e,
            decoded-Invokes req q f,
            rw (handle_reverse_request, e, f) (respond-Relayed req.id _, refl, refl),
          )
        ]
      ]
