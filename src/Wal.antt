-- ===== src/Wal.antt =====
-- crates/chassis-core/src/wal.rs: the write-ahead log, one JSON line for each event, chained by
-- hashes. A `WalWriter` holds the text of its file. serde_json and the hash come as a `Codec`, the
-- operations of the disk as a `Disk`; an error of theirs is given by its text.
pub mod Chain
pub mod Writing
pub mod Evidence
use ai_garage.Common.{
  ℕ, ◌+◌, ◌%◌, ◌^◌, Bool, true, false, not, List, [], ◌∷◌, ◌++◌, Option, none, some, Text, text,
  text_eq, split_on, last, trim, show_nat, is_some, Result, ok, err, ◌>>=◌, ◌>>◌, require,
  if◌then◌else◌, ◌==◌,
}
use ai_garage.Error.{CoreError, policy_violation, wal_integrity_violation, io}
use ai_garage.Paths.{is_empty, join}

unfoldable pub genesis_hash : Text
genesis_hash = text "0000000000000000000000000000000000000000000000000000000000000000"

abbrev pub event_capability_check : Text
event_capability_check = text "CAPABILITY_CHECK"

abbrev pub event_tool_start : Text
event_tool_start = text "TOOL_START"

abbrev pub event_tool_end : Text
event_tool_end = text "TOOL_END"

-- `V` is the type of JSON values.
pub record WalEvent (V : Type 0) : Type 0 where
  pub seq : ℕ
  pub prev_hash : Text
  pub hash : Text
  pub timestamp_utc : Text
  pub session_id : Text
  pub event_type : Text
  pub payload : V

pub record Codec (V : Type 0) : Type 0 where
  -- `serde_json::to_string(payload)`, `serde_json::to_string(&event)`, `serde_json::from_str`
  pub payload_text : V → Result Text Text
  pub event_text : WalEvent V → Result Text Text
  pub parse_event : Text → Result Text (WalEvent V)
  -- SHA-256 of the bytes of a text, in hexadecimal
  pub sha256 : Text → Text

abbrev colon : Text
colon = b':' ∷ []

-- The bytes that go into the hasher.
unfoldable pub hash_input : Text → ℕ → Text → Text → Text → Text
hash_input prev_hash seq timestamp_utc event_type payload_canonical =
    prev_hash
    ++ colon
    ++ show_nat seq
    ++ colon
    ++ timestamp_utc
    ++ colon
    ++ event_type
    ++ colon
    ++ payload_canonical

-- The sequence numbers are `u64`.
unfoldable pub next_seq : ℕ → ℕ
next_seq n = (n + 1) % 2 ^ 64

unfoldable pub sequence_reason : ℕ → ℕ → Text
sequence_reason expected found =
    text "Sequence mismatch: expected seq "
    ++ show_nat expected
    ++ text ", found seq "
    ++ show_nat found

unfoldable pub link_reason : Text → Text → Text
link_reason expected found =
    text "Hash chain broken: expected prev_hash " ++ expected ++ text ", found " ++ found

unfoldable pub hash_reason : ℕ → Text → Text → Text
hash_reason seq expected recomputed =
    text "Cryptographic hash invalid at seq "
    ++ show_nat seq
    ++ text ": expected "
    ++ expected
    ++ text ", recomputed "
    ++ recomputed

unfoldable pub parse_reason : ℕ → Text → Text
parse_reason line_idx e =
    text "Failed to parse line " ++ show_nat (line_idx + 1) ++ text " as WalEvent: " ++ e

-- `BufRead::lines`: the pieces between newlines, without an empty one at the end. A carriage
-- return before a newline is white space, which the loop trims.
unfoldable pub front_lines : List Text → List Text
front_lines [] = []
front_lines (s ∷ []) = if is_empty s then [] else s ∷ []
front_lines (s ∷ t ∷ ts) = s ∷ front_lines (t ∷ ts)

module _ {V : Type 0} (c : Codec V) where
  unfoldable pub compute_hash : Text → ℕ → Text → Text → V → Result CoreError Text
  compute_hash prev_hash seq timestamp_utc event_type payload = elim (c.payload_text payload) [
    | err e ↦ err (policy_violation (text "Failed to serialize WAL payload: " ++ e))
    | ok canonical ↦
        ok
          (text "sha256:" ++ c.sha256 (hash_input prev_hash seq timestamp_utc event_type canonical))
  ]

  unfoldable pub event_hash : WalEvent V → Result CoreError Text
  event_hash e = compute_hash e.prev_hash e.seq e.timestamp_utc e.event_type e.payload

  -- The three checks of an event.
  unfoldable pub check_event : ℕ → Text → WalEvent V → Result CoreError (Unit {0})
  check_event expected_seq expected_prev_hash event = do
    require (event.seq == expected_seq)
        (wal_integrity_violation event.seq (sequence_reason expected_seq event.seq))
    require (text_eq event.prev_hash expected_prev_hash)
        (wal_integrity_violation event.seq (link_reason expected_prev_hash event.prev_hash))
    recomputed_hash ← event_hash event
    require (text_eq event.hash recomputed_hash)
        (wal_integrity_violation event.seq (hash_reason event.seq event.hash recomputed_hash))

  unfoldable pub read_event : ℕ → ℕ → Text → Text → Result CoreError (WalEvent V)
  read_event line_idx expected_seq expected_prev_hash trimmed = elim (c.parse_event trimmed) [
    | err e ↦ err (wal_integrity_violation expected_seq (parse_reason line_idx e))
    | ok event ↦ (check_event expected_seq expected_prev_hash event >>= λ _. ok event)
  ]

  -- The loop over the lines.
  unfoldable pub read_lines : ℕ → ℕ → Text → List Text → Result CoreError (List (WalEvent V))
  read_lines line_idx expected_seq expected_prev_hash [] = ok []
  read_lines line_idx expected_seq expected_prev_hash (line ∷ rest) =
      let trimmed = trim line in
      let skipped = read_lines (line_idx + 1) expected_seq expected_prev_hash rest in
      let checked = (do
        event ← read_event line_idx expected_seq expected_prev_hash trimmed
        events ← read_lines (line_idx + 1) (next_seq expected_seq) event.hash rest
        ok (event ∷ events)) in
      if is_empty trimmed then skipped else checked

  -- `validate_integrity`, given what reading the file returns.
  unfoldable pub validate_integrity : Result Text Text → Result CoreError (List (WalEvent V))
  validate_integrity (err e) = err (io e)
  validate_integrity (ok content) = read_lines 0 0 genesis_hash (front_lines (split_on 10 content))

pub record WalWriter : Type 0 where
  pub file : Text
  pub file_path : Text
  pub session_id : Text
  pub current_seq : ℕ
  pub last_hash : Text

-- What the operating system does for one call.
pub record Disk : Type 0 where
  pub create_dir_all : Result Text (Unit {0})
  pub open_append : Result Text (Unit {0})
  pub read : Text → Result Text Text
  -- the content and the bytes to write; the new content beside the outcome
  pub write_all : Text → Text → Result Text (Unit {0}) × Text
  pub sync_all : Result Text (Unit {0})

abbrev pub or_io {ℓ} : {A : Type ℓ} → Result Text A → Result CoreError A
or_io (ok a) = ok a
or_io (err e) = err (io e)

module _ {V : Type 0} where
  -- The sequence number and the hash to go on with.
  unfoldable pub recovered : List (WalEvent V) → ℕ × Text
  recovered events = elim (last events) [
    | none ↦ (0, genesis_hash)
    | some last_event ↦ (next_seq last_event.seq, last_event.hash)
  ]

  -- The event that `append` builds.
  unfoldable pub new_event : WalWriter → Text → Text → V → Text → WalEvent V
  new_event w timestamp event_type payload hash = record {
    seq = w.current_seq;
    prev_hash = w.last_hash;
    hash = hash;
    timestamp_utc = timestamp;
    session_id = w.session_id;
    event_type = event_type;
    payload = payload;
  }

module _ {V : Type 0} (c : Codec V) (disk : Disk) where
  -- `existing` is the content of the file, if there is one. The symbolic link to the active session
  -- is not modelled: its errors are ignored and nothing reads it.
  unfoldable pub init : Text → Text → Option Text → Result CoreError WalWriter
  init sid sessions_dir existing = do
    or_io disk.create_dir_all
    or_io disk.open_append
    events ← elim existing [
      | none ↦ ok []
      | some content ↦ validate_integrity c (disk.read content)
    ]
    ok (record {
      file = elim existing [ none ↦ [] | some content ↦ content ];
      file_path = join sessions_dir (sid ++ text ".wal.jsonl");
      session_id = sid;
      current_seq = (recovered events).0;
      last_hash = (recovered events).1;
    })

  -- The line is written and synced, and only then the writer moves on.
  unfoldable pub commit_line :
      WalWriter → WalEvent V → Text → Result CoreError (WalEvent V) × WalWriter
  commit_line w event line =
      let (written, content) = disk.write_all w.file line in
      elim written [
        | err e ↦ (err (io e), record w { file = content })
        | ok _ ↦ elim disk.sync_all [
          | err e ↦ (err (io e), record w { file = content })
          | ok _ ↦ (
            ok event,
            record w {
              file = content;
              current_seq = next_seq w.current_seq;
              last_hash = event.hash;
            },
          )
        ]
      ]

  unfoldable pub append_hashed : WalWriter → WalEvent V → Result CoreError (WalEvent V) × WalWriter
  append_hashed w event = elim (c.event_text event) [
    | err e ↦ (err (policy_violation (text "Failed to serialize WAL event: " ++ e)), w)
    | ok json ↦ commit_line w event (json ++ 10 ∷ [])
  ]

  -- `timestamp` is the time of the call.
  unfoldable pub append : Text → WalWriter → Text → V → Result CoreError (WalEvent V) × WalWriter
  append timestamp w event_type payload =
      elim (compute_hash c w.last_hash w.current_seq timestamp event_type payload) [
        | err e ↦ (err e, w)
        | ok hash ↦ append_hashed w (new_event w timestamp event_type payload hash)
      ]
