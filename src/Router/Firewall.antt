-- ===== src/Router/Firewall.antt =====
-- What a call has passed before a plugin is invoked.
use ai_garage.Common.{
  ◌≡◌, ◌⊎◌, subst, sym, ap, refl, [], ◌∷◌, ◌++◌, false≢true, inl, inr, Bool, true, false, List,
  Option, none, some, Text, Result, ok, err, Result-cases, arith,
}
use ai_garage.Json.{Json}
use ai_garage.Error.{CoreError, Fault, failed}
use ai_garage.Protocol.JsonRpc.{Response}
use ai_garage.Protocol.Envelope.{InvokeRequest}
use ai_garage.Paths.{FileSystem}
use ai_garage.Wal.{
  Codec, Disk, WalEvent, WalWriter, append, event_capability_check, event_tool_start,
  event_tool_end,
}
use ai_garage.Router.Admission.{Admitted, Answers, Consented, admit_sound, consent_sound}
use ai_garage.Router.{
  CapabilityRouter, Plugin, Effect, prompted, invoked, logged, not_logged, Stop, ask_user, consent,
  stopped, call_plugin, appended, log, execute, check_payload, start_payload, end_payload,
  approve_and_execute, admit, dispatch,
}

module _ (j : Json) (fs : FileSystem) (r : CapabilityRouter) where
  -- The calls that were made.
  abbrev pub invocations : List (Effect j.Value) → List (Text × InvokeRequest j.Value)
  invocations [] = []
  invocations (invoked target q ∷ acts) = (target, q) ∷ invocations acts
  invocations (prompted ui q ∷ acts) = invocations acts
  invocations (logged event ∷ acts) = invocations acts
  invocations (not_logged event_type ∷ acts) = invocations acts

  abbrev pub only_prompts : List (Effect j.Value) → Bool
  only_prompts [] = true
  only_prompts (prompted ui q ∷ acts) = only_prompts acts
  only_prompts _ = false

  invocations-append :
      (xs ys : List (Effect j.Value)) → invocations (xs ++ ys) ≡ invocations xs ++ invocations ys
  invocations-append [] ys = refl
  invocations-append (invoked target q ∷ xs) ys =
      ap (λ (calls : List (Text × InvokeRequest j.Value)). (target, q) ∷ calls)
        (invocations-append xs ys)
  invocations-append (prompted ui q ∷ xs) ys = invocations-append xs ys
  invocations-append (logged event ∷ xs) ys = invocations-append xs ys
  invocations-append (not_logged event_type ∷ xs) ys = invocations-append xs ys

  prompts-invocations :
      (asked : List (Effect j.Value)) → only_prompts asked ≡ true → invocations asked ≡ []
  prompts-invocations [] h = refl
  prompts-invocations (prompted ui q ∷ asked) h = prompts-invocations asked h
  prompts-invocations (invoked target q ∷ asked) h = absurd (false≢true h)
  prompts-invocations (logged event ∷ asked) h = absurd (false≢true h)
  prompts-invocations (not_logged event_type ∷ asked) h = absurd (false≢true h)

  one_call :
      (target : Text) (q : InvokeRequest j.Value) (xs ys : List (Effect j.Value))
      → invocations xs ≡ []
      → invocations ys ≡ []
      → invocations (xs ++ ys ++ invoked target q ∷ []) ≡ (target, q) ∷ []
  one_call target q xs ys h k =
      rw (invocations-append (xs ++ ys) (invoked target q ∷ []), invocations-append xs ys, h, k)
        refl

  one_call_ended :
      (call : Text × InvokeRequest j.Value) (xs zs : List (Effect j.Value))
      → invocations xs ≡ call ∷ []
      → invocations zs ≡ []
      → invocations (xs ++ zs) ≡ call ∷ []
  one_call_ended call xs zs h k = rw (invocations-append xs zs, h, k) refl

  -- What the answer of a plugin means for the caller of a dispatch.
  abbrev pub made : Result CoreError (Response j.Value) → Result Fault (Response j.Value)
  made (ok resp) = ok resp
  made (err e) = err (failed e)

  module _ (answer : Answers j fs r) where
    ask_user_prompts :
        (q : InvokeRequest j.Value) → only_prompts (ask_user j fs r answer q).0 ≡ true
    unfolding ask_user
    ask_user_prompts q = ground arith

    pub consent_prompts :
        (q : InvokeRequest j.Value) → only_prompts (consent j fs r answer q).0 ≡ true
    unfolding consent
    consent_prompts q = ground (arith, ask_user_prompts q)

    module _ (c : Codec j.Value) (disk : Disk) (now : Text) where
      abbrev pub Outcome : Type 0
      Outcome = Result Fault (Response j.Value) × Option WalWriter × List (Effect j.Value)

      -- The outcome with more done before.
      abbrev pub after_prompts : List (Effect j.Value) → Outcome → Outcome
      after_prompts asked (result, wal, acts) = (result, wal, asked ++ acts)

      abbrev pub dispatched : Text → InvokeRequest j.Value → Option WalWriter → Outcome
      dispatched caller_id q wal = dispatch j fs r answer c disk now caller_id q wal

      pub dispatch-refuses :
          (caller_id : Text) (q : InvokeRequest j.Value) (wal : Option WalWriter) (s : Stop j.Value)
          → admit j fs r caller_id q ≡ err s
          → dispatched caller_id q wal ≡ (stopped j fs r q s, wal, [])
      unfolding dispatch
      dispatch-refuses caller_id q wal s e = rw (dispatch, e) refl

      pub dispatch-denies :
          (caller_id target : Text) (q : InvokeRequest j.Value) (wal : Option WalWriter)
          (s : Stop j.Value) (asked : List (Effect j.Value))
          → admit j fs r caller_id q ≡ ok target
          → consent j fs r answer q ≡ (asked, err s)
          → dispatched caller_id q wal ≡ (stopped j fs r q s, wal, asked)
      unfolding dispatch approve_and_execute
      dispatch-denies caller_id target q wal s asked e k = rw (dispatch, e, k) refl

      pub dispatch-executes :
          (caller_id target : Text) (q : InvokeRequest j.Value) (wal : Option WalWriter)
          (asked : List (Effect j.Value))
          → admit j fs r caller_id q ≡ ok target
          → consent j fs r answer q ≡ (asked, ok tt)
          → dispatched caller_id q wal
            ≡ after_prompts asked (execute j fs r answer c disk now caller_id target q wal)
      unfolding dispatch approve_and_execute
      dispatch-executes caller_id target q wal asked e k = rw (dispatch, e, k) refl

      appended-invocations :
          (event_type : Text) (res : Result CoreError (WalEvent j.Value) × WalWriter)
          → invocations (appended j fs r answer event_type res).1 ≡ []
      unfolding appended
      appended-invocations event_type (ok event, w) = refl
      appended-invocations event_type (err e, w) = refl

      -- An append makes no call.
      log-invocations :
          (wal : Option WalWriter) (event_type : Text) (payload : j.Value)
          → invocations (log j fs r answer c disk now wal event_type payload).1 ≡ []
      unfolding log
      log-invocations none event_type payload = refl
      log-invocations (some w) event_type payload =
          appended-invocations event_type (append c disk now w event_type payload)

      abbrev written : Option WalWriter → Text → j.Value → Option WalWriter × List (Effect j.Value)
      written wal event_type payload = log j fs r answer c disk now wal event_type payload

      pub pair-eq :
          (q : InvokeRequest j.Value) (m : Result (Stop j.Value) (Unit {0}))
          → (consent j fs r answer q).1 ≡ m
          → consent j fs r answer q ≡ ((consent j fs r answer q).0, m)
      pair-eq q m h =
          ap (λ (x : Result (Stop j.Value) (Unit {0})). ((consent j fs r answer q).0, x)) h

      -- Nothing called and nothing logged; or this one call, with its answer as the result.
      abbrev pub SoleCall : Text → InvokeRequest j.Value → Option WalWriter → Outcome → Type 0
      SoleCall caller_id q wal out =
          ((invocations out.2 ≡ []) × (out.1 ≡ wal))
          ⊎ ((target : Text) × (provider : Plugin) × Admitted j fs r caller_id q target provider
              × Consented j fs r answer q
              × (invocations out.2 ≡ (target, q) ∷ [])
              × (out.0 ≡ made (answer target q)))

      execute-calls :
          (caller_id target : Text) (q : InvokeRequest j.Value) (wal : Option WalWriter)
          → let (result, _, acts) = execute j fs r answer c disk now caller_id target q wal in
            (invocations acts ≡ (target, q) ∷ []) × (result ≡ made (answer target q))
      unfolding execute call_plugin
      execute-calls caller_id target q wal =
          let check = check_payload j fs r caller_id target q in
          let (wal1, checked) = written wal event_capability_check check in
          let (wal2, started) = written wal1 event_tool_start (start_payload j fs r target q) in
          let before =
            one_call target q checked started (log-invocations wal event_capability_check check)
              (log-invocations wal1 event_tool_start (start_payload j fs r target q)) in
          elim (Result-cases (answer target q)) [
            | inr (e, f) ↦ (rw (execute, f) before, rw (execute, f) refl)
            | inl (resp, f) ↦ (
              rw (execute, f)
                  (one_call_ended (target, q) (checked ++ started ++ invoked target q ∷ [])
                    (written wal2 event_tool_end (end_payload j fs r q resp)).1 before
                    (log-invocations wal2 event_tool_end (end_payload j fs r q resp))),
              rw (execute, f) refl,
            )
          ]

      executed-SoleCall :
          (caller_id target : Text) (provider : Plugin) (q : InvokeRequest j.Value)
          (wal : Option WalWriter) (asked : List (Effect j.Value))
          → Admitted j fs r caller_id q target provider
          → Consented j fs r answer q
          → only_prompts asked ≡ true
          → SoleCall caller_id q wal
              (after_prompts asked (execute j fs r answer c disk now caller_id target q wal))
      executed-SoleCall caller_id target provider q wal asked admitted consented h =
          let (calls, same) = execute-calls caller_id target q wal in
          inr (
            target,
            provider,
            admitted,
            consented,
            rw
                (
                  invocations-append asked
                      (execute j fs r answer c disk now caller_id target q wal).2,
                  prompts-invocations asked h,
                )
                calls,
            same,
          )

      -- A dispatch invokes no plugin and leaves the log as it was, or it invokes one plugin once, with
      -- the request that came, and its result is that plugin's answer. Then the call was admitted for
      -- this plugin, by its lease, and there was consent: none was needed, or the mode gave it, or the
      -- plugin that shows prompts answered that the user approves or is missing.
      pub dispatch_guarded :
          (caller_id : Text) (q : InvokeRequest j.Value) (wal : Option WalWriter)
          → SoleCall caller_id q wal (dispatch j fs r answer c disk now caller_id q wal)
      dispatch_guarded caller_id q wal = elim (Result-cases (admit j fs r caller_id q)) [
        | inr (s, e) ↦
            subst (SoleCall caller_id q wal) (sym (dispatch-refuses caller_id q wal s e))
              (inl (refl, refl))
        | inl (target, e) ↦
            let (provider, admitted) = admit_sound j fs r caller_id q target e in
            let asked = (consent j fs r answer q).0 in
            elim (Result-cases (consent j fs r answer q).1) [
              | inr (s, k) ↦
                  subst (SoleCall caller_id q wal)
                    (sym (dispatch-denies caller_id target q wal s asked e (pair-eq q _ k)))
                    (inl (prompts-invocations asked (consent_prompts q), refl))
              | inl (u, k) ↦
                  subst (SoleCall caller_id q wal)
                    (sym (dispatch-executes caller_id target q wal asked e (pair-eq q _ k)))
                    (executed-SoleCall caller_id target provider q wal asked admitted
                      (consent_sound j fs r answer q k) (consent_prompts q))
            ]
      ]
