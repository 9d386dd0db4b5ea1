-- ===== src/Wal/Writing.antt =====
-- Appending to a log that validates gives one that validates, and the writer knows where it ends.
use mathlib.Core.List.{append_assoc}
use ai_garage.Common.{
  ◌≡◌, ◌⊎◌, sym, refl, ap, inl, inr, false, List, [], ◌∷◌, ◌++◌, some, Text, text, trim, any, ok,
  err, ◌==◌, Option-cases, arith, split_on, split_on-append, split_on-plain,
}
use ai_garage.Error.{CoreError}
use ai_garage.Paths.{is_empty, join}
use ai_garage.Wal.{
  WalEvent, Codec, WalWriter, Disk, event_hash, compute_hash, next_seq, front_lines,
  validate_integrity, genesis_hash, recovered, init, new_event, commit_line, append_hashed, append,
}
use ai_garage.Wal.Chain.{
  IsChain, events_of, validate_integrity_iff, state_after, recovered-chain, IsChain-append,
  state_after-append,
}

front_lines-append_nil : (ss : List Text) → front_lines (ss ++ [] ∷ []) ≡ ss
unfolding front_lines
front_lines-append_nil [] = refl
front_lines-append_nil (s ∷ []) = refl
front_lines-append_nil (s ∷ t ∷ ts) =
    ap (λ (u : List Text). s ∷ u) (front_lines-append_nil (t ∷ ts))

-- The lines of a text that ends with a newline, and of one with a line more.
lines-ended : (q : Text) → front_lines (split_on 10 (q ++ 10 ∷ [])) ≡ split_on 10 q
lines-ended q =
    rw (split_on-append 10 q []) (unfold split_on in front_lines-append_nil (split_on 10 q))

lines-more :
    (q json : Text)
    → any (λ ch. ch == 10) json ≡ false
    → front_lines (split_on 10 ((q ++ 10 ∷ []) ++ (json ++ 10 ∷ []))) ≡ split_on 10 q ++ json ∷ []
lines-more q json h =
    rw
      (
        append_assoc q (10 ∷ []) (json ++ 10 ∷ []),
        split_on-append 10 q (json ++ 10 ∷ []),
        split_on-append 10 json [],
        split_on-plain 10 json h,
        ← append_assoc (split_on 10 q) (json ∷ []) (split_on 10 []),
      )
      (unfold split_on in front_lines-append_nil (split_on 10 q ++ json ∷ []))

-- No line stands open: the next one begins a line of its own.
abbrev pub IsEnded : Text → Type 0
IsEnded file = (file ≡ []) ⊎ ((q : Text) × (file ≡ q ++ 10 ∷ []))

module _ {V : Type 0} (c : Codec V) where
  -- The file validates to `es`, and the writer stands at its end.
  pub record InSync (w : WalWriter) (es : List (WalEvent V)) : Type 0 where
    pub accepted : validate_integrity c (ok w.file) ≡ ok es
    pub position : state_after c 0 genesis_hash es ≡ (w.current_seq, w.last_hash)
    pub ended : IsEnded w.file

  -- The text of an event: one line that is not blank and reads back.
  pub record Encodes (e : WalEvent V) (json : Text) : Type 0 where
    pub encoded : c.event_text e ≡ ok json
    pub one_line : any (λ ch. ch == 10) json ≡ false
    pub not_blank : is_empty (trim json) ≡ false
    pub reads_back : c.parse_event (trim json) ≡ ok e

  events_of-append :
      (lines : List Text) (es : List (WalEvent V)) (e : WalEvent V) (json : Text)
      → events_of c lines ≡ some es
      → Encodes e json
      → events_of c (lines ++ json ∷ []) ≡ some (es ++ e ∷ [])
  events_of-append [] es e json h enc = ground (arith, enc.not_blank, enc.reads_back)
  events_of-append (line ∷ rest) es e json h enc = elim (Option-cases (events_of c rest)) [
    | inl f ↦ ground (arith, events_of-append rest es e json, enc)
    | inr (later, f) ↦
        ground (arith, events_of-append rest later e json f enc, events_of-append rest es e json)
  ]

  -- The file after a line more.
  file-append :
      (file : Text) (es : List (WalEvent V)) (e : WalEvent V) (json : Text)
      → IsEnded file
      → Encodes e json
      → events_of c (front_lines (split_on 10 file)) ≡ some es
      → (events_of c (front_lines (split_on 10 (file ++ (json ++ 10 ∷ [])))) ≡ some (es ++ e ∷ []))
        × IsEnded (file ++ (json ++ 10 ∷ []))
  unfolding front_lines split_on
  file-append file es e json (inl empty) enc h =
      let old : events_of c [] ≡ some es = rw empty at h in
      (
        rw (empty, lines-ended json, split_on-plain 10 json enc.one_line)
            (events_of-append [] es e json old enc),
        inr (json, rw empty),
      )
  file-append file es e json (inr (q, ends)) enc h =
      let old : events_of c (split_on 10 q) ≡ some es = rw (ends, lines-ended q) at h in
      (
        rw (ends, lines-more q json enc.one_line)
            (events_of-append (split_on 10 q) es e json old enc),
        inr (file ++ json, sym (append_assoc file json (10 ∷ []))),
      )

  -- The disk does its part: the line is put at the end of the file, and synced.
  pub record Writes (disk : Disk) (file line : Text) : Type 0 where
    pub written : disk.write_all file line ≡ (ok tt, file ++ line)
    pub synced : disk.sync_all ≡ ok tt

  -- The writer after an append that goes through.
  abbrev pub advanced : WalWriter → Text → Text → WalWriter
  advanced w hash line = record w {
    file = w.file ++ line;
    current_seq = next_seq w.current_seq;
    last_hash = hash;
  }

  append-advanced :
      (disk : Disk) (w : WalWriter) (timestamp event_type hash json : Text) (payload : V)
      → compute_hash c w.last_hash w.current_seq timestamp event_type payload ≡ ok hash
      → c.event_text (new_event w timestamp event_type payload hash) ≡ ok json
      → Writes disk w.file (json ++ 10 ∷ [])
      → append c disk timestamp w event_type payload
        ≡ (ok (new_event w timestamp event_type payload hash), advanced w hash (json ++ 10 ∷ []))
  unfolding append append_hashed commit_line new_event
  append-advanced disk w timestamp event_type hash json payload h enc io =
      ground (arith, h, enc, io.written, io.synced)

  -- Appending to a writer in step with its log returns the event, with the next number and linked
  -- to the last hash, and leaves the writer in step with the longer log.
  pub append-InSync :
      (disk : Disk) (w : WalWriter) (es : List (WalEvent V)) (timestamp event_type hash json : Text)
      (payload : V)
      → InSync w es
      → compute_hash c w.last_hash w.current_seq timestamp event_type payload ≡ ok hash
      → Encodes (new_event w timestamp event_type payload hash) json
      → Writes disk w.file (json ++ 10 ∷ [])
      → ((append c disk timestamp w event_type payload).0
          ≡ ok (new_event w timestamp event_type payload hash))
        × InSync
            (append c disk timestamp w event_type payload).1
            (es ++ new_event w timestamp event_type payload hash ∷ [])
  append-InSync disk w es timestamp event_type hash json payload sync h enc io =
      let e = new_event w timestamp event_type payload hash in
      let (parsed, chain) = (validate_integrity_iff c w.file es).0 sync.accepted in
      let (parsed', ended') = file-append w.file es e json sync.ended enc parsed in
      let linked : IsChain c (state_after c 0 genesis_hash es).0 (state_after c 0 genesis_hash es).1
          (e ∷ []) =
        rw sync.position (unfold new_event event_hash in (refl, refl, h, tt)) in
      let chain' = IsChain-append c 0 genesis_hash es e chain linked in
      rw (append-advanced disk w timestamp event_type hash json payload h enc.encoded io) (
        refl,
        record {
          accepted = (validate_integrity_iff c _ (es ++ e ∷ [])).1 (parsed', chain');
          position =
              rw (state_after-append c 0 genesis_hash es e, sync.position)
                (unfold new_event in refl);
          ended = ended';
        },
      )

  recovered_state :
      (es : List (WalEvent V))
      → IsChain c 0 genesis_hash es
      → recovered es ≡ state_after c 0 genesis_hash es
  unfolding recovered
  recovered_state [] k = refl
  recovered_state (e ∷ es) k = unfold recovered in recovered-chain c 0 genesis_hash e es k

  -- Opening a session whose file validates and ends with a newline gives a writer in step with it.
  pub init-InSync :
      (disk : Disk) (sid sessions_dir content : Text) (es : List (WalEvent V))
      → disk.create_dir_all ≡ ok tt
      → disk.open_append ≡ ok tt
      → disk.read content ≡ ok content
      → validate_integrity c (ok content) ≡ ok es
      → IsEnded content
      → (w : WalWriter) × (init c disk sid sessions_dir (some content) ≡ ok w)
        × (w.session_id ≡ sid)
        × InSync w es
  unfolding init
  init-InSync disk sid sessions_dir content es dir open_ok read_ok valid ended_ok =
      let (parsed, chain) = (validate_integrity_iff c content es).0 valid in
      (
        record {
          file = content;
          file_path = join sessions_dir (sid ++ text ".wal.jsonl");
          session_id = sid;
          current_seq = (recovered es).0;
          last_hash = (recovered es).1;
        },
        ground (arith, read_ok),
        refl,
        record { accepted = valid; position = sym (recovered_state es chain); ended = ended_ok },
      )

  -- A session whose file does not validate cannot be opened.
  pub init_refuses :
      (disk : Disk) (sid sessions_dir content : Text) (x : CoreError)
      → disk.create_dir_all ≡ ok tt
      → disk.open_append ≡ ok tt
      → validate_integrity c (disk.read content) ≡ err x
      → init c disk sid sessions_dir (some content) ≡ err x
  unfolding init
  init_refuses disk sid sessions_dir content x dir open_ok invalid = ground (arith, invalid)
