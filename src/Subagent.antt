-- ===== src/Subagent.antt =====
-- crates/chassis-core/src/subagent.rs: a task delegated to a subagent, under part of the parent's
-- authority and with a log of its own. `Logs` holds the two writers; a step returns its result and the
-- writers after it.
pub mod Authority
pub mod Delegation
use ai_garage.Common.{
  ℕ, Bool, true, false, not, List, [], ◌∷◌, ◌++◌, Option, none, some, Text, text, set_contains,
  set_insert, length, map, unwrap_or, Result, ok, err, if◌then◌else◌,
}
use ai_garage.Json.{Json}
use ai_garage.Error.{CoreError, policy_violation}
use ai_garage.Error
use ai_garage.Common.{show_nat}
use ai_garage.Attenuation.{EffectiveLease}
use ai_garage.Wal.{Codec, Disk, WalEvent, WalWriter, init, append, validate_integrity}

pub record SubAgentSpawnRequest : Type 0 where
  pub subagent_id : Text
  pub goal : Text
  pub granted_capabilities : List Text
  pub timeout_secs : ℕ

-- What `timeout_secs` is when the request leaves it out.
abbrev pub default_timeout : ℕ
default_timeout = 60

pub record SubAgentResult : Type 0 where
  pub subagent_id : Text
  pub sub_session_id : Text
  pub status : Text
  pub events_count : ℕ
  pub summary : Option Text

pub record SubAgentManager : Type 0 where
  pub parent_session_id : Text
  pub sessions_dir : Text

-- `{:?}` of the set is a parameter, as it depends on the order of its elements.
unfoldable pub escalation_message : (List Text → Text) → Text → List Text → Text
escalation_message debug cap parent_capabilities =
    text "Sub-agent capability escalation rejected: child requested '"
    ++ cap
    ++ text "', but parent only has "
    ++ debug parent_capabilities

unfoldable pub validate_attenuation :
    (List Text → Text) → List Text → List Text → Result CoreError (Unit {0})
unfolding escalation_message set_contains
validate_attenuation debug parent_capabilities [] = ok tt
validate_attenuation debug parent_capabilities (cap ∷ rest) =
    let later = validate_attenuation debug parent_capabilities rest in
    if not (set_contains parent_capabilities cap)
    then err (policy_violation (escalation_message debug cap parent_capabilities))
    else later

unfoldable pub binary_capability : Text → Text
binary_capability bin = text "tools.process:" ++ bin

unfoldable pub with_binaries : List Text → List Text → List Text
unfolding binary_capability set_insert
with_binaries [] caps = caps
with_binaries (bin ∷ rest) caps = with_binaries rest (set_insert (binary_capability bin) caps)

abbrev pub none_of : List Text → Bool
none_of [] = true
none_of (d ∷ ds) = false

-- `if b { caps.insert(cap); }`
unfoldable pub insert_if : Bool → Text → List Text → List Text
unfolding set_insert
insert_if b cap caps = if b then set_insert cap caps else caps

-- What the lease of the parent amounts to, as capabilities.
unfoldable pub capabilities_of : EffectiveLease → List Text
unfolding with_binaries insert_if
capabilities_of lease =
    let reading =
      insert_if lease.allow_filesystem_read (text "tools.execute:list_dir")
        (insert_if lease.allow_filesystem_read (text "tools.execute:file_read") []) in
    let writing =
      insert_if lease.allow_filesystem_write (text "tools.execute:file_write") reading in
    insert_if (not (none_of lease.allowed_domains)) (text "network:outbound")
      (with_binaries lease.allowed_binaries writing)

pub record Logs : Type 0 where
  pub parent : WalWriter
  pub sub : WalWriter

-- A step of the delegation.
abbrev pub Task : Type 0 → Type 0
Task A = Logs → Result CoreError A × Logs

unfoldable pub after :
    {A B : Type 0} → Result CoreError A × Logs → (A → Task B) → Result CoreError B × Logs
after (err e, s) f = (err e, s)
after (ok a, s) f = f a s

-- The operator `?` on a step.
infixl 5 ◌>>=◌ ◌>>◌
abbrev pub ◌>>=◌ : {A B : Type 0} → Task A → (A → Task B) → Task B
(m >>= f) s = after (m s) f

abbrev pub ◌>>◌ : {A B : Type 0} → Task A → Task B → Task B
m >> k = m >>= λ _. k

module _ (j : Json) (c : Codec j.Value) (disk : Disk) (now : Text) where
  unfoldable pub put_parent :
      WalWriter
      → Result CoreError (WalEvent j.Value) × WalWriter
      → Result CoreError (Unit {0}) × Logs
  put_parent sub (err e, w) = (err e, record { parent = w; sub = sub })
  put_parent sub (ok event, w) = (ok tt, record { parent = w; sub = sub })

  unfoldable pub put_sub :
      WalWriter
      → Result CoreError (WalEvent j.Value) × WalWriter
      → Result CoreError (Unit {0}) × Logs
  put_sub parent (err e, w) = (err e, record { parent = parent; sub = w })
  put_sub parent (ok event, w) = (ok tt, record { parent = parent; sub = w })

  -- `parent_wal.append(..)?` and `sub_wal.append(..)?`
  unfoldable pub log_parent : Text → List (Text × j.Value) → Task (Unit {0})
  unfolding put_parent append
  log_parent event_type fields s =
      put_parent s.sub (append c disk now s.parent event_type (j.object fields))

  unfoldable pub log_sub : Text → List (Text × j.Value) → Task (Unit {0})
  unfolding put_sub append
  log_sub event_type fields s =
      put_sub s.parent (append c disk now s.sub event_type (j.object fields))

  abbrev pub texts : List Text → j.Value
  texts ts = j.array (map (λ t. j.string t) ts)

  -- `summary` as JSON, null where there is none
  abbrev pub summary_value : Option Text → j.Value
  summary_value none = j.null
  summary_value (some s) = j.string s

  unfoldable pub deadline_message : SubAgentSpawnRequest → Text
  deadline_message req =
      text "Sub-agent '"
      ++ req.subagent_id
      ++ text "' exceeded deadline of "
      ++ show_nat req.timeout_secs
      ++ text "s"

  abbrev pub fail_with : {A : Type 0} → CoreError → Task A
  fail_with e s = (err e, s)

  abbrev pub done : {A : Type 0} → A → Task A
  done a s = (ok a, s)

  -- How the task ended: by its result, or none where the time ran out.
  unfoldable pub record_end :
      SubAgentSpawnRequest → Option (Result CoreError (Option Text)) → Task (Option Text)
  unfolding log_sub deadline_message Error.show
  record_end req (some (ok summary)) = do
    log_sub (text "SUBAGENT_SUCCESS")
        ((text "summary", j.string (unwrap_or summary (text "completed"))) ∷ [])
    done summary
  record_end req (some (err e)) = do
    log_sub (text "SUBAGENT_FAILED") ((text "error", j.string (Error.show e)) ∷ [])
    fail_with e
  record_end req none = do
    log_sub (text "SUBAGENT_TIMEOUT") ((text "timeout_secs", j.number req.timeout_secs) ∷ [])
    fail_with (policy_violation (deadline_message req))

  -- The events of the subagent's log, if it validates.
  unfoldable pub verify : Task (List (WalEvent j.Value))
  unfolding validate_integrity
  verify s = (validate_integrity c (disk.read s.sub.file), s)

  unfoldable pub returned :
      SubAgentSpawnRequest → Text → Option Text → List (WalEvent j.Value) → SubAgentResult
  returned req sub_session_id summary events = record {
    subagent_id = req.subagent_id;
    sub_session_id = sub_session_id;
    status = text "success";
    events_count = length events;
    summary = summary;
  }

  module _ (manager : SubAgentManager)
      (task : Text → Text → Option (Result CoreError (Option Text))) where
    -- The session of the subagent.
    unfoldable pub sub_session : SubAgentSpawnRequest → Text
    sub_session req = manager.parent_session_id ++ text ".sub." ++ req.subagent_id

    unfoldable pub delegate : SubAgentSpawnRequest → Text → Task SubAgentResult
    unfolding log_parent log_sub record_end verify returned
    delegate req sub_wal_path = do
      log_parent (text "SUBAGENT_SPAWNED") (
          (text "subagent_id", j.string req.subagent_id)
          ∷ (text "sub_session_id", j.string (sub_session req))
          ∷ (text "goal", j.string req.goal)
          ∷ (text "granted_capabilities", texts req.granted_capabilities)
          ∷ [])
      log_sub (text "SUBAGENT_START") (
          (text "parent_session_id", j.string manager.parent_session_id)
          ∷ (text "subagent_id", j.string req.subagent_id)
          ∷ (text "goal", j.string req.goal)
          ∷ (text "granted_capabilities", texts req.granted_capabilities)
          ∷ [])
      summary ← record_end req (task (sub_session req) sub_wal_path)
      log_sub (text "SUBAGENT_END") ((text "status", j.string (text "clean_exit")) ∷ [])
      events ← verify
      log_parent (text "SUBAGENT_RETURNED") (
          (text "subagent_id", j.string req.subagent_id)
          ∷ (text "status", j.string (text "success"))
          ∷ (text "nested_wal_events", j.number (length events))
          ∷ (text "summary", summary_value summary)
          ∷ [])
      done (returned req (sub_session req) summary events)

    -- The subagent's log, once it is open.
    unfoldable pub run_opened :
        SubAgentSpawnRequest
        → WalWriter
        → Result CoreError WalWriter
        → Result CoreError SubAgentResult × WalWriter × Option WalWriter
    unfolding delegate
    run_opened req parent_wal (err e) = (err e, parent_wal, none)
    run_opened req parent_wal (ok sub_wal) =
        let (res, logs) =
          delegate req sub_wal.file_path (record { parent = parent_wal; sub = sub_wal }) in
        (res, logs.parent, some logs.sub)

    -- The result, the parent's writer and the subagent's, if it was opened. `existing` is the content of
    -- the subagent's log, if there is one. The teardown guard only writes to the trace.
    unfoldable pub spawn_and_execute :
        (List Text → Text)
        → SubAgentSpawnRequest
        → EffectiveLease
        → WalWriter
        → Option Text
        → Result CoreError SubAgentResult × WalWriter × Option WalWriter
    unfolding validate_attenuation capabilities_of run_opened init
    spawn_and_execute debug req parent_lease parent_wal existing =
        elim (validate_attenuation debug (capabilities_of parent_lease) req.granted_capabilities) [
          | err e ↦ (err e, parent_wal, none)
          | ok _ ↦
              run_opened req parent_wal
                (init c disk (sub_session req) manager.sessions_dir existing)
        ]
