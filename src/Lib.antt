-- ===== src/Lib.antt =====
-- Chassis, a microkernel for AI plugins: a broker between plugin processes, which run under leases
-- that the host's policy attenuates, with a hash-chained log of what was done.
--
-- The parts and their files, with the paths of the repository:
--   Common, Int, Json      shared types: Rust's str as a list of code points, HashMap as an
--                          association list, HashSet as a list, i64 and the interface of serde_json.
--   Protocol               crates/chassis-protocol/src: error codes (RpcError), JSON-RPC messages
--                          (JsonRpc), NDJSON framing (Framing), envelopes and lifecycle records.
--   Error, Manifest,       crates/chassis-core/src/error.rs, manifest.rs, policy.rs: errors, the
--   Policy                 plugin's manifest and the host's policy, field by field.
--   Paths                  std::path on Unix, as far as the program calls it, and the file system.
--   Attenuation            crates/chassis-core/src/attenuation.rs: `compute` builds the lease of a
--                          plugin from its manifest and the policy; `validate_network`,
--                          `validate_process`, `check_hitl_requirement` stand beside it, `Glob` holds
--                          the forbidden patterns, `Sandbox` holds `validate_path`.
--   Lifo                   crates/chassis-core/src/lifo.rs: the stack of cleanup actions.
--   Wal                    crates/chassis-core/src/wal.rs: events, their hash, `validate_integrity`,
--                          `init` and `append`.
--   Router                 crates/chassis-core/src/router.rs: `register_plugin`, `dispatch` (target,
--                          firewall, consent, log, invocation, log) and `handle_reverse_request`.
--                          `State` holds its state, `Url` the host of a URL, `Gates` the firewall.
--                          It calls Attenuation with the lease of the target and Wal for the log.
--   Process                crates/chassis-core/src/process.rs: the state that the handle and the
--                          reader task of a plugin share, as steps of calls and lines (`run`), and
--                          the search for descendants (`Tree`). `Spawning` is the choice of the
--                          program and the environment that a plugin starts with, `Teardown` the
--                          shutdown and the kill of a process tree.
--   Supervisor             crates/chassis-core/src/supervisor.rs: `launch_and_handshake_full` (lease,
--                          command, start, handshake, acknowledgement), `ping` and `invoke`. It calls
--                          Attenuation for the lease and Process.Spawning for the command.
--   Subagent               crates/chassis-core/src/subagent.rs: `validate_attenuation` and
--                          `spawn_and_execute`, over the log of the parent and that of the subagent.
--   Lockfile               crates/chassis-core/src/lockfile.rs: the entries and the check of a hash.
--   Vault                  crates/chassis-core/src/vault.rs: the secrets, hexadecimal text, and the
--                          encrypted file (`save_to_file`, `load_from_file`).
--   Blob                   crates/chassis-core/src/blob.rs: `store` and `read`.
--   Orchestrator           crates/plugins/chassis-orchestrator/src: the reading of the model's replies
--                          (Answers), calls of other plugins by way of the kernel (Invoking), the
--                          prompts (Prompt), `run_goal` with its rounds (Goal), `chat_turn` and the
--                          handler of requests (Chat).
--   Plugins                the other plugins, crates/plugins: what their handlers share (Serving),
--                          chassis-tools-websearch (WebSearch: Html, Encoding, Search, Requests),
--                          chassis-tools-filesystem (FileTools), chassis-model-local (LocalModel) and
--                          chassis-storage-sqlite (Storage: Rows, Statements, Store, Requests).
--   Examples               concrete inputs, at which the theorems are applied.
--
-- State is passed explicitly. A dispatch returns its result, the log's writer and the list of its
-- effects in order: a call of a plugin, an event that was appended to the log, an append that failed. A writer of the log holds the text of its file. Errors are values of `Result`,
-- and a panic is a value of `Fault`. The loop of `LifoStack::unwind` runs on as many rounds as the
-- stack has guards, which is enough as each round takes one off; decimal numbers are written on
-- one round more than the number, and a number has fewer digits than that. The search for
-- descendants runs one round more than there are processes, as each enters the queue once. The loop of
-- `run_goal` runs on the steps that are left, which the source bounds by a clamp to 1..25.
-- Sequence numbers of the log are 64 bits wide and wrap, and so are the identifiers of requests.
--
-- Parameters: serde_json and the derived encoders, the TOML parser, SHA-256, the disk, the file
-- system at the time of a call, the clock, the cipher and its key derivation, the answers of
-- plugin processes and of the kernel, the environment of the host, the start of a process, HTTP,
-- libSQL and the task of a subagent. An error of such a part is given by its text. `to_lowercase`
-- changes ASCII letters only.
--
-- Not modelled: how the operating system starts, stops and reaps processes (the model of a teardown
-- lists the calls), the command line and the sockets of its interface (crates/chassis-cli), opening a
-- database; locks and tasks, as a dispatch holds the read lock of the plugins throughout and each step
-- of the transport holds the lock of its map.
pub mod Common
pub mod Int
pub mod Json
pub mod Protocol
pub mod Error
pub mod Manifest
pub mod Policy
pub mod Paths
pub mod Attenuation
pub mod Lifo
pub mod Wal
pub mod Plugins
pub mod Orchestrator
pub mod Router
pub mod Examples
pub mod Process
pub mod Supervisor
pub mod Subagent
pub mod Lockfile
pub mod Vault
pub mod Blob
