-- ===== src/Router/Ordering.antt =====
-- What a dispatch does, in order.
use mathlib.Core.List.{append_assoc}
use ai_garage.Common.{
  ◌≡◌, ◌⊎◌, inl, inr, refl, sym, subst, true, List, [], ◌∷◌, ◌++◌, Option, none, some, Text, text,
  is_some, Result, ok, err, Result-cases, arith,
}
use ai_garage.Json.{Json}
use ai_garage.Error.{CoreError, Fault, failed}
use ai_garage.Protocol.JsonRpc.{string, Response, error_response}
use ai_garage.Protocol.RpcError.{RpcError}
use ai_garage.Protocol.Envelope.{InvokeRequest}
use ai_garage.Paths.{FileSystem}
use ai_garage.Wal.{
  Codec, Disk, WalEvent, WalWriter, append, event_capability_check, event_tool_start,
  event_tool_end,
}
use ai_garage.Router.{
  CapabilityRouter, interactive, Effect, invoked, logged, not_logged, Stop, refuse, fault, consent,
  ask_user, appended, log, execute, call_plugin, check_payload, start_payload, end_payload, stopped,
  admit, dispatch,
}
use ai_garage.Router.Firewall.{
  only_prompts, consent_prompts, pair-eq, after_prompts, dispatch-refuses, dispatch-denies,
  dispatch-executes,
}

module _ (j : Json) (fs : FileSystem) (r : CapabilityRouter)
    (answer : Text → InvokeRequest j.Value → Result CoreError (Response j.Value))
    (c : Codec j.Value) (disk : Disk) (now : Text) (caller_id : Text)
    (q : InvokeRequest j.Value) where
  abbrev pub Outcome : Type 0
  Outcome = Result Fault (Response j.Value) × Option WalWriter × List (Effect j.Value)

  -- The append of an entry, and what is seen of it: the event that was appended, or that none was.
  abbrev pub Recorded : WalWriter → Text → j.Value → Effect j.Value → WalWriter → Type 0
  Recorded w event_type payload act w' =
      ((event : WalEvent j.Value) × (append c disk now w event_type payload ≡ (ok event, w'))
        × (act ≡ logged event))
      ⊎ ((e : CoreError) × (append c disk now w event_type payload ≡ (err e, w'))
          × (act ≡ not_logged event_type))

  abbrev check_entry : Text → j.Value
  check_entry target = j.object (
      (text "caller_id", j.string caller_id)
      ∷ (text "target_plugin", j.string target)
      ∷ (text "capability", j.string q.capability)
      ∷ (text "method", j.string q.method)
      ∷ (text "status", j.string (text "APPROVED"))
      ∷ [])

  abbrev start_entry : Text → j.Value
  start_entry target = j.object (
      (text "call_id", j.string q.call_id)
      ∷ (text "target_plugin", j.string target)
      ∷ (text "method", j.string q.method)
      ∷ [])

  abbrev end_entry : Response j.Value → j.Value
  end_entry resp =
      j.object (
        (text "call_id", j.string q.call_id) ∷ (text "has_error", j.bool (is_some resp.error)) ∷ [])

  -- What follows the call of the plugin: its failure is the result; or its answer is, and then the
  -- end is recorded.
  abbrev pub Ended : Text → WalWriter → List (Effect j.Value) → Outcome → Type 0
  Ended target w before (result, wal', acts) =
      ((e : CoreError) × (answer target q ≡ err e)
        × (result ≡ err (failed e))
        × (wal' ≡ some w)
        × (acts ≡ before))
      ⊎ ((resp : Response j.Value) × (ended : Effect j.Value) × (w' : WalWriter) × (answer target q
            ≡ ok resp)
          × (result ≡ ok resp)
          × Recorded w event_tool_end (end_entry resp) ended w'
          × (wal' ≡ some w')
          × (acts ≡ before ++ ended ∷ []))

  -- The check and the start are recorded, one after the other, and then the plugin is called.
  abbrev pub Executed : Text → WalWriter → List (Effect j.Value) → Outcome → Type 0
  Executed target w asked out =
      (checked : Effect j.Value) × (w1 : WalWriter) × (started : Effect j.Value) × (w2 : WalWriter)
      × Recorded w event_capability_check (check_entry target) checked w1
      × Recorded w1 event_tool_start (start_entry target) started w2
      × Ended target w2 (asked ++ (checked ∷ started ∷ invoked target q ∷ [])) out

  appended-Recorded :
      (w : WalWriter) (event_type : Text) (payload : j.Value)
      (res : Result CoreError (WalEvent j.Value) × WalWriter)
      → append c disk now w event_type payload ≡ res
      → (act : Effect j.Value) × (w' : WalWriter) × (log j fs r answer c disk now
            (some w)
            event_type
            payload
          ≡ (some w', act ∷ []))
        × Recorded w event_type payload act w'
  unfolding log appended
  appended-Recorded w event_type payload (ok event, w') h =
      (logged event, w', rw (log, h) refl, inl (event, h, refl))
  appended-Recorded w event_type payload (err e, w') h =
      (not_logged event_type, w', rw (log, h) refl, inr (e, h, refl))

  log-Recorded :
      (w : WalWriter) (event_type : Text) (payload : j.Value)
      → (act : Effect j.Value) × (w' : WalWriter) × (log j fs r answer c disk now
            (some w)
            event_type
            payload
          ≡ (some w', act ∷ []))
        × Recorded w event_type payload act w'
  log-Recorded w event_type payload = appended-Recorded w event_type payload _ refl

  module _ (target : Text) (w w1 w2 : WalWriter) (checked started : Effect j.Value)
      (e1 : log j fs r answer c disk now (some w) event_capability_check (check_entry target)
        ≡ (some w1, checked ∷ []))
      (e2 : log j fs r answer c disk now (some w1) event_tool_start (start_entry target)
        ≡ (some w2, started ∷ [])) where
    execute-failed :
        (e : CoreError)
        → answer target q ≡ err e
        → execute j fs r answer c disk now caller_id target q (some w)
          ≡ (err (failed e), some w2, checked ∷ started ∷ invoked target q ∷ [])
    unfolding execute call_plugin check_payload start_payload
    execute-failed e f = rw (execute, f, e1, e2) refl

    execute-answered :
        (resp : Response j.Value) (w3 : WalWriter) (ended : Effect j.Value)
        → answer target q ≡ ok resp
        → log j fs r answer c disk now (some w2) event_tool_end (end_entry resp)
          ≡ (some w3, ended ∷ [])
        → execute j fs r answer c disk now caller_id target q (some w)
          ≡ (ok resp, some w3, checked ∷ started ∷ invoked target q ∷ ended ∷ [])
    unfolding execute call_plugin check_payload start_payload end_payload
    execute-answered resp w3 ended f e3 = rw (execute, f, e1, e2, e3) refl

  execute-Executed :
      (target : Text) (w : WalWriter) (asked : List (Effect j.Value))
      → Executed target w asked (
          after_prompts j fs r answer c disk now asked
            (execute j fs r answer c disk now caller_id target q (some w)))
  execute-Executed target w asked =
      let (checked, w1, e1, recorded1) =
        log-Recorded w event_capability_check (check_entry target) in
      let (started, w2, e2, recorded2) = log-Recorded w1 event_tool_start (start_entry target) in
      let before = asked ++ (checked ∷ started ∷ invoked target q ∷ []) in
      elim (Result-cases (answer target q)) [
        | inr (e, f) ↦ (
          checked,
          w1,
          started,
          w2,
          recorded1,
          recorded2,
          subst
              (λ (out : Outcome).
                Ended target w2 before (after_prompts j fs r answer c disk now asked out))
              (sym (execute-failed target w w1 w2 checked started e1 e2 e f))
              (inl (e, f, refl, refl, refl)),
        )
        | inl (resp, f) ↦
            let (ended, w3, e3, recorded3) = log-Recorded w2 event_tool_end (end_entry resp) in
            (
              checked,
              w1,
              started,
              w2,
              recorded1,
              recorded2,
              subst
                  (λ (out : Outcome).
                    Ended target w2 before (after_prompts j fs r answer c disk now asked out))
                  (sym (execute-answered target w w1 w2 checked started e1 e2 resp w3 ended f e3))
                  (inr (
                    resp,
                    ended,
                    w3,
                    f,
                    refl,
                    recorded3,
                    refl,
                    sym (
                        append_assoc asked (checked ∷ started ∷ invoked target q ∷ [])
                          (ended ∷ [])),
                  )),
            )
      ]

  -- What the caller gets of a stop: an error under the identifier of the call, or a fault.
  abbrev pub Reported : Stop j.Value → Result Fault (Response j.Value) → Type 0
  Reported (refuse e) result = result ≡ ok (error_response (string q.call_id) e)
  Reported (fault f) result = result ≡ err f

  stopped-Reported : (s : Stop j.Value) → Reported s (stopped j fs r q s)
  unfolding stopped
  stopped-Reported (refuse e) = refl
  stopped-Reported (fault f) = refl

  -- The call was stopped, by the firewall or for want of consent: only prompts were shown.
  abbrev pub Stopped : WalWriter → Outcome → Type 0
  Stopped w (result, wal', acts) =
      (s : Stop j.Value) × ((admit j fs r caller_id q ≡ err s)
        ⊎ ((consent j fs r answer q).1 ≡ err s))
      × Reported s result
      × (wal' ≡ some w)
      × (only_prompts j fs r acts ≡ true)

  abbrev pub Ordered : WalWriter → Outcome → Type 0
  Ordered w out =
      Stopped w out
      ⊎ ((target : Text) × (admit j fs r caller_id q ≡ ok target)
          × ((consent j fs r answer q).1 ≡ ok tt)
          × Executed target w (consent j fs r answer q).0 out)

  -- With a log, a dispatch takes one of two courses. The firewall or the user stops the call: the
  -- answer says so, nothing was done but prompts, and the log is as it was. Or the check of the call
  -- and its start are appended to the log, in this order and each from where the one before left the
  -- log, then the plugin is called, and its failure or its answer is the result; an answer is
  -- followed by the entry of the end. Whether an append succeeds does not matter for what follows.
  pub dispatch_order :
      (w : WalWriter) → Ordered w (dispatch j fs r answer c disk now caller_id q (some w))
  dispatch_order w = elim (Result-cases (admit j fs r caller_id q)) [
    | inr (s, e) ↦
        subst (Ordered w) (sym (dispatch-refuses j fs r answer c disk now caller_id q (some w) s e))
          (inl (s, inl e, stopped-Reported s, refl, refl))
    | inl (target, e) ↦
        let asked = (consent j fs r answer q).0 in
        elim (Result-cases (consent j fs r answer q).1) [
          | inr (s, k) ↦
              subst (Ordered w)
                (sym (
                  dispatch-denies j fs r answer c disk now caller_id target q (some w) s asked e
                    (pair-eq j fs r answer c disk now q _ k)))
                (inl (s, inr k, stopped-Reported s, refl, consent_prompts j fs r answer q))
          | inl (u, k) ↦
              subst (Ordered w)
                (sym (
                  dispatch-executes j fs r answer c disk now caller_id target q (some w) asked e
                    (pair-eq j fs r answer c disk now q _ k)))
                (inr (target, e, k, execute-Executed target w asked))
        ]
  ]

  -- The refusal of a call: the error response under its call's identifier, nothing done and nothing
  -- logged.
  pub dispatch_refused :
      (e : RpcError j.Value) (wal : Option WalWriter)
      → admit j fs r caller_id q ≡ err (refuse e)
      → dispatch j fs r answer c disk now caller_id q wal
        ≡ (ok (error_response (string q.call_id) e), wal, [])
  unfolding dispatch stopped
  dispatch_refused e wal a = ground (arith, a)

  -- In the interactive mode, without a plugin that shows prompts, every call has the consent.
  pub consent_open :
      r.mode ≡ interactive → r.ui_plugin_id ≡ none → consent j fs r answer q ≡ ([], ok tt)
  unfolding consent ask_user
  consent_open m u = ground arith
