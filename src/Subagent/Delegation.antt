-- ===== src/Subagent/Delegation.antt =====
-- What the delegation of a task leaves in the logs.
use ai_garage.Common.{
  ◌≡◌, ◌⊎◌, inl, inr, refl, sym, ap, ◌∙◌, subst, true, List, Option, none, some, Text, text, all,
  Result, ok, err, arith,
}
use ai_garage.Json.{Json}
use ai_garage.Error.{CoreError, policy_violation}
use ai_garage.Attenuation.{EffectiveLease}
use ai_garage.Wal.{Codec, Disk, WalEvent, WalWriter, init, append, validate_integrity}
use ai_garage.Subagent.Authority.{grants, validate_attenuation-cases}
use ai_garage.Subagent.{
  SubAgentSpawnRequest, SubAgentResult, SubAgentManager, Logs, Task, after, put_parent, put_sub,
  log_parent, log_sub, record_end, verify, returned, sub_session, delegate, run_opened,
  spawn_and_execute,
}

after-ok :
    {A B : Type 0} (m : Result CoreError A × Logs) (f : A → Task B) (b : B) (t : Logs)
    → after m f ≡ (ok b, t)
    → (a : A) × (s : Logs) × (m ≡ (ok a, s)) × (f a s ≡ (ok b, t))
unfolding after
after-ok (ok a, s) f b t h = (a, s, refl, h)
after-ok (err e, s) f b t h = ground arith

-- The result and the logs of a step that went well.
ok-parts :
    {A : Type 0} (a b : A) (s t : Logs)
    → Path (Result CoreError A × Logs) (ok a, s) (ok b, t)
    → (a ≡ b) × (s ≡ t)
ok-parts {A = A} a b s t h = (
  ap (λ (x : Result CoreError A × Logs). elim x.0 [ ok v ↦ v | err e ↦ a ]) h,
  ap (λ (x : Result CoreError A × Logs). x.1) h,
)

module _ (j : Json) (c : Codec j.Value) (disk : Disk) (now : Text) where
  -- The event of this type was appended to the writer.
  abbrev pub Appended : WalWriter → Text → WalWriter → Type 0
  Appended w event_type w' =
      (payload : j.Value) × (event : WalEvent j.Value) × (append c disk now w event_type payload
        ≡ (ok event, w'))

  Appended-eq :
      (event_type : Text) (w w' v v' : WalWriter)
      → w ≡ w'
      → v ≡ v'
      → Appended w event_type v
      → Appended w' event_type v'
  Appended-eq event_type w w' v v' e f h =
      subst (λ (x : WalWriter). Appended x event_type v') e
        (subst (λ (y : WalWriter). Appended w event_type y) f h)

  put_parent-ok :
      (sub : WalWriter) (r : Result CoreError (WalEvent j.Value) × WalWriter) (s : Logs)
      → put_parent j c disk now sub r ≡ (ok tt, s)
      → (event : WalEvent j.Value) × (r ≡ (ok event, s.parent)) × (s.sub ≡ sub)
  unfolding put_parent
  put_parent-ok sub (ok event, w) s h = (
    event,
    ap (λ (t : Result CoreError (Unit {0}) × Logs). (ok event, t.1.parent)) h,
    sym (ap (λ (t : Result CoreError (Unit {0}) × Logs). t.1.sub) h),
  )
  put_parent-ok sub (err e, w) s h = ground arith

  put_sub-ok :
      (parent : WalWriter) (r : Result CoreError (WalEvent j.Value) × WalWriter) (s : Logs)
      → put_sub j c disk now parent r ≡ (ok tt, s)
      → (event : WalEvent j.Value) × (r ≡ (ok event, s.sub)) × (s.parent ≡ parent)
  unfolding put_sub
  put_sub-ok parent (ok event, w) s h = (
    event,
    ap (λ (t : Result CoreError (Unit {0}) × Logs). (ok event, t.1.sub)) h,
    sym (ap (λ (t : Result CoreError (Unit {0}) × Logs). t.1.parent) h),
  )
  put_sub-ok parent (err e, w) s h = ground arith

  log_parent-ok :
      (event_type : Text) (fields : List (Text × j.Value)) (s s' : Logs)
      → log_parent j c disk now event_type fields s ≡ (ok tt, s')
      → Appended s.parent event_type s'.parent × (s'.sub ≡ s.sub)
  unfolding log_parent
  log_parent-ok event_type fields s s' h =
      let (event, e, f) = put_parent-ok s.sub _ s' h in ((j.object fields, event, e), f)

  log_sub-ok :
      (event_type : Text) (fields : List (Text × j.Value)) (s s' : Logs)
      → log_sub j c disk now event_type fields s ≡ (ok tt, s')
      → Appended s.sub event_type s'.sub × (s'.parent ≡ s.parent)
  unfolding log_sub
  log_sub-ok event_type fields s s' h =
      let (event, e, f) = put_sub-ok s.parent _ s' h in ((j.object fields, event, e), f)

  record_end-ok :
      (req : SubAgentSpawnRequest) (outcome : Option (Result CoreError (Option Text))) (s s' : Logs)
      (summary : Option Text)
      → record_end j c disk now req outcome s ≡ (ok summary, s')
      → (outcome ≡ some (ok summary))
        × Appended s.sub (text "SUBAGENT_SUCCESS") s'.sub
        × (s'.parent ≡ s.parent)
  unfolding record_end
  record_end-ok req (some (ok summary')) s s' summary h =
      let (u, s1, e, f) = after-ok (log_sub j c disk now _ _ s) _ summary s' h in
      let (same, end) = ok-parts summary' summary s1 s' f in
      let (logged, kept) = log_sub-ok _ _ s s1 e in
      (
        ap (λ (t : Option Text). some (ok t)) same,
        subst (λ (t : Logs). Appended s.sub (text "SUBAGENT_SUCCESS") t.sub) end logged,
        subst (λ (t : Logs). t.parent ≡ s.parent) end kept,
      )
  record_end-ok req (some (err e)) s s' summary h =
      let (u, s1, k, f) = after-ok (log_sub j c disk now _ _ s) _ summary s' h in ground arith
  record_end-ok req none s s' summary h =
      let (u, s1, k, f) = after-ok (log_sub j c disk now _ _ s) _ summary s' h in ground arith

  verify-ok :
      (s t : Logs) (events : List (WalEvent j.Value))
      → verify j c disk now s ≡ (ok events, t)
      → (validate_integrity c (disk.read s.sub.file) ≡ ok events) × (s ≡ t)
  unfolding verify
  verify-ok s t events h = (
    ap (λ (x : Result CoreError (List (WalEvent j.Value)) × Logs). x.0) h,
    ap (λ (x : Result CoreError (List (WalEvent j.Value)) × Logs). x.1) h,
  )

  module _ (manager : SubAgentManager)
      (task : Text → Text → Option (Result CoreError (Option Text))) where
    -- A delegation that went well: the task ended in time; the parent's log got one event before the
    -- task and one at the end; the subagent's log got three events, and validates.
    pub record Delegated (req : SubAgentSpawnRequest) (s : Logs) (r : SubAgentResult) (t : Logs)
        : Type 0 where
      pub summary : Option Text
      pub finished :
          task (sub_session j c disk now manager task req) s.sub.file_path ≡ some (ok summary)
      pub spawned : WalWriter
      pub parent_spawned : Appended s.parent (text "SUBAGENT_SPAWNED") spawned
      pub parent_returned : Appended spawned (text "SUBAGENT_RETURNED") t.parent
      pub started : WalWriter
      pub succeeded : WalWriter
      pub sub_started : Appended s.sub (text "SUBAGENT_START") started
      pub sub_succeeded : Appended started (text "SUBAGENT_SUCCESS") succeeded
      pub sub_ended : Appended succeeded (text "SUBAGENT_END") t.sub
      pub events : List (WalEvent j.Value)
      pub validates : validate_integrity c (disk.read t.sub.file) ≡ ok events
      pub result :
          r ≡ returned j c disk now req (sub_session j c disk now manager task req) summary events

    delegate-Delegated :
        (req : SubAgentSpawnRequest) (s : Logs) (r : SubAgentResult) (t : Logs)
        → delegate j c disk now manager task req s.sub.file_path s ≡ (ok r, t)
        → Delegated req s r t
    unfolding delegate
    delegate-Delegated req s r t h =
        let (u1, s1, e1, h1) = after-ok (log_parent j c disk now _ _ s) _ r t h in
        let (u2, s2, e2, h2) = after-ok (log_sub j c disk now _ _ s1) _ r t h1 in
        let (summary, s3, e3, h3) = after-ok (record_end j c disk now req _ s2) _ r t h2 in
        let (u4, s4, e4, h4) = after-ok (log_sub j c disk now _ _ s3) _ r t h3 in
        let (events, s5, e5, h5) = after-ok (verify j c disk now s4) _ r t h4 in
        let (u6, s6, e6, h6) = after-ok (log_parent j c disk now _ _ s5) _ r t h5 in
        let (same, end) = ok-parts _ r s6 t h6 in
        let (spawned, kept1) = log_parent-ok _ _ s s1 e1 in
        let (started, kept2) = log_sub-ok _ _ s1 s2 e2 in
        let (finished, succeeded, kept3) = record_end-ok req _ s2 s3 summary e3 in
        let (ended, kept4) = log_sub-ok _ _ s3 s4 e4 in
        let (valid, kept5) = verify-ok s4 s5 events e5 in
        let (back, kept6) = log_parent-ok _ _ s5 s6 e6 in
        let sub4 : s4.sub ≡ t.sub =
          ap (λ (x : Logs). x.sub) kept5 ∙ sym kept6 ∙ ap (λ (x : Logs). x.sub) end in
        let parent5 : s5.parent ≡ s1.parent =
          sym (ap (λ (x : Logs). x.parent) kept5) ∙ kept4 ∙ kept3 ∙ kept2 in
        record {
          summary = summary;
          finished = finished;
          spawned = s1.parent;
          parent_spawned = spawned;
          parent_returned =
              Appended-eq _ s5.parent s1.parent s6.parent t.parent parent5
                (ap (λ (x : Logs). x.parent) end) back;
          started = s2.sub;
          succeeded = s3.sub;
          sub_started = Appended-eq _ s1.sub s.sub s2.sub s2.sub kept1 refl started;
          sub_succeeded = succeeded;
          sub_ended = Appended-eq _ s3.sub s3.sub s4.sub t.sub refl sub4 ended;
          events = events;
          validates =
              subst (λ (w : WalWriter). validate_integrity c (disk.read w.file) ≡ ok events) sub4
                valid;
          result = sym same;
        }

    abbrev Outcome : Type 0
    Outcome = Result CoreError SubAgentResult × WalWriter × Option WalWriter

    run_opened-ok :
        (req : SubAgentSpawnRequest) (parent_wal : WalWriter) (opened : Result CoreError WalWriter)
        (r : SubAgentResult) (w : WalWriter) (sub' : Option WalWriter)
        → run_opened j c disk now manager task req parent_wal opened ≡ (ok r, w, sub')
        → (sub : WalWriter) × (t : Logs) × (opened ≡ ok sub)
          × Delegated req (record { parent = parent_wal; sub = sub }) r t
          × (w ≡ t.parent)
          × (sub' ≡ some t.sub)
    unfolding run_opened
    run_opened-ok req parent_wal (err e) r w sub' h = ground arith
    run_opened-ok req parent_wal (ok sub) r w sub' h =
        let s : Logs = record { parent = parent_wal; sub = sub } in
        let t = (delegate j c disk now manager task req sub.file_path s).1 in
        (
          sub,
          t,
          refl,
          delegate-Delegated req s r t (ap (λ (x : Outcome). (x.0, t)) h),
          sym (ap (λ (x : Outcome). x.1) h),
          sym (ap (λ (x : Outcome). x.2) h),
        )

    -- A subagent gets no authority that its parent lacks: a request is refused as a policy violation,
    -- no log is opened and the parent's log stays as it was, unless the lease of the parent grants
    -- every capability that is requested.
    pub spawn_no_escalation :
        (debug : List Text → Text) (req : SubAgentSpawnRequest) (lease : EffectiveLease)
        (parent_wal : WalWriter) (existing : Option Text)
        → (all (grants lease) req.granted_capabilities ≡ true)
          ⊎ ((m : Text) × (spawn_and_execute j c disk now manager task debug req lease parent_wal
                  existing
                ≡ (err (policy_violation m), parent_wal, none)))
    unfolding spawn_and_execute
    spawn_no_escalation debug req lease parent_wal existing =
        elim (validate_attenuation-cases debug lease req.granted_capabilities) [
          | inl (e, granted) ↦ inl granted
          | inr (m, e) ↦ inr (m, rw (spawn_and_execute, e) refl)
        ]

    -- A delegation that succeeds has the events of a whole life in both logs, in order, each appended
    -- where the one before it left the log; the task ended in time; and the subagent's log, read back,
    -- validates to as many events as the result says.
    pub spawn_Delegated :
        (debug : List Text → Text) (req : SubAgentSpawnRequest) (lease : EffectiveLease)
        (parent_wal : WalWriter) (existing : Option Text) (r : SubAgentResult) (w : WalWriter)
        (sub' : Option WalWriter)
        → spawn_and_execute j c disk now manager task debug req lease parent_wal existing
          ≡ (ok r, w, sub')
        → (sub : WalWriter) × (t : Logs) × (init c disk
              (sub_session j c disk now manager task req)
              manager.sessions_dir
              existing
            ≡ ok sub)
          × Delegated req (record { parent = parent_wal; sub = sub }) r t
          × (w ≡ t.parent)
          × (sub' ≡ some t.sub)
    unfolding spawn_and_execute
    spawn_Delegated debug req lease parent_wal existing r w sub' h =
        let opened =
          init c disk (sub_session j c disk now manager task req) manager.sessions_dir existing in
        elim (validate_attenuation-cases debug lease req.granted_capabilities) [
          | inl (e, granted) ↦
              run_opened-ok req parent_wal opened r w sub' (rw (spawn_and_execute, e) at h)
          | inr (m, e) ↦ ground (arith, rw (spawn_and_execute, e) at h)
        ]
