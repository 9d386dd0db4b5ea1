-- ===== src/Examples/Logs.antt =====
-- A log of one event.
use ai_garage.Common.{
  ℕ, ◌+◌, ◌≡◌, ◌↔◌, refl, inl, inr, Bool, true, false, List, [], ◌∷◌, ◌++◌, Option, none, some,
  Text, text, text_eq, length, split_on, trim, trim_end, trim_start, is_whitespace, Result, ok, err,
  if◌then◌else◌, arith,
}
use ai_garage.Error.{CoreError, wal_integrity_violation}
use ai_garage.Wal.{
  WalEvent, Codec, WalWriter, Disk, hash_input, genesis_hash, compute_hash, event_hash,
  validate_integrity, front_lines, init, new_event, append,
}
use ai_garage.Wal.Chain.{validate_integrity_iff, IsChain, events_of}
use ai_garage.Wal.Writing.{append-InSync, init-InSync, InSync, Encodes, Writes}
use ai_garage.Wal.Evidence.{tamper_evident, NoCollision, SameRecords, relabel, relabel-IsChain}

abbrev sum : Text → ℕ
sum [] = 0
sum (c ∷ s) = c + sum s

-- A digest of one character.
abbrev digest : Text → Text
digest s = sum s ∷ []

abbrev first_event : WalEvent Text
first_event = record {
  seq = 0;
  prev_hash = genesis_hash;
  hash =
      text "sha256:"
      ++ digest (hash_input genesis_hash 0 (text "t") (text "TOOL_START") (text "p"));
  timestamp_utc = text "t";
  session_id = text "s";
  event_type = text "TOOL_START";
  payload = text "p";
}

-- Every event is written as "a", which is read as the first event.
abbrev pub letters : Codec Text
letters = record {
  payload_text = λ p. ok p;
  event_text = λ e. ok (b'a' ∷ []);
  parse_event = λ s. if text_eq s (b'a' ∷ []) then ok first_event else err (text "not a letter");
  sha256 = digest;
}

abbrev pub sound_disk : Disk
sound_disk = record {
  create_dir_all = ok tt;
  open_append = ok tt;
  read = λ s. ok s;
  write_all = λ s t. (ok tt, s ++ t);
  sync_all = ok tt;
}

validate_integrity_example :
    (validate_integrity letters (ok (b'a' ∷ 10 ∷ [])) ≡ ok (first_event ∷ [])) ↔ (
      (events_of letters (front_lines (split_on 10 (b'a' ∷ 10 ∷ []))) ≡ some (first_event ∷ []))
      × IsChain letters 0 genesis_hash (first_event ∷ []))
validate_integrity_example = validate_integrity_iff letters (b'a' ∷ 10 ∷ []) (first_event ∷ [])

first_hash : event_hash letters first_event ≡ ok first_event.hash
unfolding event_hash compute_hash
first_hash = refl

abbrev pub empty_writer : WalWriter
empty_writer = record {
  file = [];
  file_path = text "/s/s.wal.jsonl";
  session_id = text "s";
  current_seq = 0;
  last_hash = genesis_hash;
}

empty_InSync : InSync letters empty_writer []
unfolding validate_integrity ai_garage.Wal.read_lines front_lines split_on
empty_InSync = record { accepted = refl; position = refl; ended = inl refl }

first-Encodes :
    Encodes letters
      (new_event empty_writer (text "t") (text "TOOL_START") (text "p") first_event.hash)
      (b'a' ∷ [])
unfolding new_event trim trim_end trim_start is_whitespace text_eq
first-Encodes = record { encoded = refl; one_line = refl; not_blank = refl; reads_back = refl }

first_hashed :
    compute_hash letters genesis_hash 0 (text "t") (text "TOOL_START") (text "p")
    ≡ ok first_event.hash
unfolding compute_hash
first_hashed = refl

first_written : Writes letters sound_disk [] (b'a' ∷ 10 ∷ [])
first_written = record { written = refl; synced = refl }

append-InSync_example :
    ((append letters sound_disk (text "t") empty_writer (text "TOOL_START") (text "p")).0
      ≡ ok (new_event empty_writer (text "t") (text "TOOL_START") (text "p") first_event.hash))
    × InSync letters
        (append letters sound_disk (text "t") empty_writer (text "TOOL_START") (text "p")).1
        (new_event empty_writer (text "t") (text "TOOL_START") (text "p") first_event.hash ∷ [])
append-InSync_example =
    append-InSync letters sound_disk empty_writer [] (text "t") (text "TOOL_START") first_event.hash
      (b'a' ∷ []) (text "p") empty_InSync first_hashed first-Encodes first_written

letter_read :
    events_of letters (front_lines (split_on 10 (b'a' ∷ 10 ∷ []))) ≡ some (first_event ∷ [])
unfolding front_lines split_on trim trim_end trim_start is_whitespace text_eq
letter_read = refl

letter_accepted : validate_integrity letters (ok (b'a' ∷ 10 ∷ [])) ≡ ok (first_event ∷ [])
letter_accepted =
    (validate_integrity_iff letters (b'a' ∷ 10 ∷ []) (first_event ∷ [])).1
      (letter_read, (refl, refl, first_hash, tt))

init-InSync_example :
    (w : WalWriter) × (init letters sound_disk (text "s") (text "/s") (some (b'a' ∷ 10 ∷ []))
      ≡ ok w)
    × (w.session_id ≡ text "s")
    × InSync letters w (first_event ∷ [])
init-InSync_example =
    init-InSync letters sound_disk (text "s") (text "/s") (b'a' ∷ 10 ∷ []) (first_event ∷ []) refl
      refl refl letter_accepted (inr (b'a' ∷ [], refl))

abbrev letter_error : CoreError
letter_error = wal_integrity_violation 0 (text "Failed to parse line 1 as WalEvent: not a letter")

letter_refused : validate_integrity letters (ok (b'b' ∷ 10 ∷ [])) ≡ err letter_error
unfolding validate_integrity ai_garage.Wal.read_lines front_lines split_on trim trim_end trim_start
    is_whitespace ai_garage.Wal.read_event text_eq text ai_garage.Wal.parse_reason
    ai_garage.Common.show_nat ai_garage.Common.digit_text
letter_refused = refl

relabel-IsChain_example :
    IsChain letters 0 genesis_hash (relabel letters (text "other") (first_event ∷ []))
relabel-IsChain_example =
    relabel-IsChain letters 0 genesis_hash (text "other") (first_event ∷ [])
      (refl, refl, first_hash, tt)

apart : NoCollision letters (first_event ∷ []) (relabel letters (text "other") (first_event ∷ []))
apart = (λ a b h k d. ground arith, tt)

tamper_evident_example :
    SameRecords letters (first_event ∷ []) (relabel letters (text "other") (first_event ∷ []))
tamper_evident_example =
    tamper_evident letters (λ a b. refl) (first_event ∷ [])
      (relabel letters (text "other") (first_event ∷ [])) (refl, refl, first_hash, tt)
      relabel-IsChain_example refl refl apart
