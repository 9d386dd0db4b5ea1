-- ===== src/Examples/Hosts.antt =====
-- The start of a plugin and a task for a subagent at concrete inputs.
use ai_garage.Common.{
  ℕ, ◌+◌, ◌-◌, ◌==◌, ◌≡◌, ◌⊎◌, refl, true, List, [], ◌∷◌, ◌++◌, Option, none, some, Text, text,
  text_eq, all, set_contains, set_insert, lookup, split_on, trim, trim_start, trim_end,
  is_whitespace, Result, ok, err, if◌then◌else◌,
}
use ai_garage.Int.{pos}
use ai_garage.Error.{CoreError, policy_violation}
use ai_garage.Paths.{FileSystem}
use ai_garage.Wal.{WalEvent, Codec, WalWriter, Disk, genesis_hash, init, validate_integrity}
use ai_garage.Process.Spawning.{Host, child_env}
use ai_garage.Process.Environment.{or_else, passed, child_env_lem}
use ai_garage.Protocol.JsonRpc.{number, success}
use ai_garage.Protocol.Lifecycle.{PluginAnnounceResult}
use ai_garage.Supervisor.{PluginIo, Converter, launch_and_handshake_full}
use ai_garage.Supervisor.Handshake.{Guarded, launch-Guarded}
use ai_garage.Subagent.{
  SubAgentSpawnRequest, SubAgentResult, SubAgentManager, Logs, sub_session, spawn_and_execute,
}
use ai_garage.Subagent.Authority.{grants}
use ai_garage.Subagent.Delegation.{Delegated, spawn_no_escalation, spawn_Delegated}
use ai_garage.Examples.Samples.{
  Value, string, values, searcher_id, sample_policy, sample_manifest, sample_lease,
}

-- Every path is canonical and exists.
abbrev full_disk : FileSystem
full_disk = record { canonicalize = λ p. ok p; exists = λ p. true }

abbrev host : Host
host = record {
  files = full_disk;
  var = λ name. if text_eq name (text "UNSET") then none else some (text "of the host");
  current_exe = none;
}

child_env_example :
    lookup (text "HOME") (child_env host (text "HOME" ∷ []) ((text "KEY", text "secret") ∷ []))
    ≡ or_else (lookup (text "HOME") ((text "KEY", text "secret") ∷ [])) (
        or_else
          (passed host (text "HOME" ∷ []) (text "HOME"))
          (passed host (text "PATH" ∷ []) (text "HOME")))
child_env_example =
    child_env_lem host (text "HOME" ∷ []) ((text "KEY", text "secret") ∷ []) (text "HOME")

-- A plugin that answers every request, and the acknowledgement.
abbrev willing : PluginIo Value
willing = record {
  start = λ cmd. ok (some 7);
  ask = λ method v. some (ok (success (number (pos 1)) v));
  tell = λ method v. ok tt;
}

abbrev announcement : PluginAnnounceResult Value
announcement = record {
  manifest = record {
    plugin_id = searcher_id;
    version = text "1.0.0";
    display_name = text "Searcher";
    description = [];
    capabilities_offered = [];
    capabilities_required = [];
    hooks_subscribed = [];
  };
}

abbrev converter : Converter Value
converter = record {
  handshake_value = λ params. ok (string params.session_id);
  ack_value = λ params. ok (string params.lease_token);
  announced = λ v. ok announcement;
  invoke_value = λ q. err (text "no request");
}

launch-Guarded_example :
    Guarded values converter willing
      (text "5s")
      host
      sample_manifest
      sample_policy
      (text "/w")
      (text "/p")
      (text "s")
      none
      (launch_and_handshake_full values converter willing
        (text "5s")
        host
        sample_manifest
        sample_policy
        (text "/w")
        (text "/p")
        (text "s")
        none)
launch-Guarded_example =
    launch-Guarded values converter willing (text "5s") host sample_manifest sample_policy
      (text "/w") (text "/p") (text "s") none

-- The event at a position of a log whose hashes are all alike.
abbrev nth : ℕ → WalEvent Value
nth n = record {
  seq = n;
  prev_hash = if n == 0 then genesis_hash else text "sha256:h";
  hash = text "sha256:h";
  timestamp_utc = text "t";
  session_id = text "s";
  event_type = text "SUBAGENT";
  payload = string (text "p");
}

abbrev read_letter : Text → Result Text (WalEvent Value)
read_letter [] = err (text "empty")
read_letter (l ∷ ls) = ok (nth (l - b'a'))

-- An event is written as the letter of its position.
abbrev by_position : Codec Value
by_position = record {
  payload_text = λ p. ok (text "p");
  event_text = λ e. ok ((b'a' + e.seq) ∷ []);
  parse_event = read_letter;
  sha256 = λ s. text "h";
}

abbrev sound : Disk
sound = record {
  create_dir_all = ok tt;
  open_append = ok tt;
  read = λ s. ok s;
  write_all = λ s t. (ok tt, s ++ t);
  sync_all = ok tt;
}

abbrev manager : SubAgentManager
manager = record { parent_session_id = text "s"; sessions_dir = text "/s" }

abbrev parent_log : WalWriter
parent_log = record {
  file = [];
  file_path = text "/s/s.wal.jsonl";
  session_id = text "s";
  current_seq = 0;
  last_hash = genesis_hash;
}

abbrev request : SubAgentSpawnRequest
request = record {
  subagent_id = text "r";
  goal = text "read";
  granted_capabilities = text "tools.execute:file_read" ∷ text "tools.process:git" ∷ [];
  timeout_secs = 60;
}

abbrev greedy : SubAgentSpawnRequest
greedy = record request { granted_capabilities = text "tools.execute:file_write" ∷ [] }

abbrev finish : Text → Text → Option (Result CoreError (Option Text))
finish session path = some (ok (some (text "read it")))

abbrev debug : List Text → Text
debug caps = text "{..}"

spawn_no_escalation_example :
    (all (grants sample_lease) greedy.granted_capabilities ≡ true)
    ⊎ ((m : Text) × (spawn_and_execute values by_position sound
            (text "t")
            manager
            finish
            debug
            greedy
            sample_lease
            parent_log
            none
          ≡ (err (policy_violation m), parent_log, none)))
spawn_no_escalation_example =
    spawn_no_escalation values by_position sound (text "t") manager finish debug greedy sample_lease
      parent_log none

abbrev spawned : Result CoreError SubAgentResult × WalWriter × Option WalWriter
spawned =
    spawn_and_execute values by_position sound (text "t") manager finish debug request sample_lease
      parent_log none

abbrev read_it : SubAgentResult
read_it = record {
  subagent_id = text "r";
  sub_session_id = text "s.sub.r";
  status = text "success";
  events_count = 3;
  summary = some (text "read it");
}

spawn_succeeds : spawned ≡ (ok read_it, spawned.1, spawned.2)
unfolding spawn_and_execute text text_eq ai_garage.Subagent.after ai_garage.Wal.compute_hash
    ai_garage.Wal.append_hashed ai_garage.Wal.commit_line ai_garage.Wal.read_lines
    ai_garage.Wal.front_lines split_on ai_garage.Wal.new_event ai_garage.Wal.next_seq
    ai_garage.Wal.recovered trim trim_end trim_start is_whitespace ai_garage.Wal.read_event
    ai_garage.Wal.check_event set_contains set_insert ai_garage.Wal.event_hash genesis_hash
    sub_session
spawn_succeeds = refl

spawn_Delegated_example :
    (sub : WalWriter) × (t : Logs) × (init by_position sound
        (sub_session values by_position sound (text "t") manager finish request)
        manager.sessions_dir
        none
      ≡ ok sub)
    × Delegated values by_position sound
        (text "t")
        manager
        finish
        request
        (record { parent = parent_log; sub = sub })
        read_it
        t
    × (spawned.1 ≡ t.parent)
    × (spawned.2 ≡ some t.sub)
spawn_Delegated_example =
    spawn_Delegated values by_position sound (text "t") manager finish debug request sample_lease
      parent_log none read_it spawned.1 spawned.2 spawn_succeeds
