-- ===== src/Protocol/Framing/RoundTrip.antt =====
-- crates/chassis-protocol/src/jsonrpc.rs: a line that `to_ndjson` writes, read by `from_ndjson`.
use mathlib.Core.List.{append_assoc, reverse-append, reverse-reverse}
use ai_garage.Common.{
  ◌==◌, ◌≡◌, ◌≢◌, refl, ap, ◌∙◌, false, List, [], ◌∷◌, ◌++◌, All, any, map, reverse, Text, text_eq,
  is_whitespace, trim_start, trim_end, trim, split_on, split_on-append, split_on-plain,
  split_on-ne-nil, ℕ, Result, ok, err, Result-cases, if◌then◌else◌, inl, inr, arith,
}
use ai_garage.Protocol.JsonRpc.{Message, version_2}
use ai_garage.Protocol.Framing.{
  ProtocolError, serialization, invalid_version, Codec, version, check_version, to_ndjson,
  from_trimmed, from_ndjson,
}

-- "{" and "}" around the text of a message.
abbrev pub braced : Text → Text
braced body = b'{' ∷ (body ++ b'}' ∷ [])

trim_start-plain : (c : ℕ) (s : Text) → is_whitespace c ≡ false → trim_start (c ∷ s) ≡ c ∷ s
unfolding trim_start
trim_start-plain c s h = ground (arith, h)

brace_plain : is_whitespace b'{' ≡ false
unfolding is_whitespace
brace_plain = refl

close_plain : is_whitespace b'}' ≡ false
unfolding is_whitespace
close_plain = refl

trim-braced : (body : Text) → trim (braced body) ≡ braced body
unfolding trim trim_end
trim-braced body =
    let front : trim_start (braced body) ≡ braced body =
      trim_start-plain b'{' (body ++ b'}' ∷ []) brace_plain in
    let turned : reverse (braced body) ≡ b'}' ∷ reverse (b'{' ∷ body) =
      reverse-append (b'{' ∷ body) (b'}' ∷ []) in
    let back : trim_start (b'}' ∷ reverse (b'{' ∷ body)) ≡ b'}' ∷ reverse (b'{' ∷ body) =
      trim_start-plain b'}' _ close_plain in
    rw
      (
        front,
        turned,
        back,
        reverse-append (b'}' ∷ []) (reverse (b'{' ∷ body)),
        reverse-reverse (b'{' ∷ body),
      )
      refl

-- Without the last piece, which no newline ends.
abbrev pub drop_last : List Text → List Text
drop_last [] = []
drop_last (s ∷ []) = []
drop_last (s ∷ t ∷ ts) = s ∷ drop_last (t ∷ ts)

-- The lines of a stream: the pieces that a newline ends.
abbrev pub lines_of : Text → List Text
lines_of stream = drop_last (split_on 10 stream)

drop_last-cons : (s : Text) (ss : List Text) → ss ≢ [] → drop_last (s ∷ ss) ≡ s ∷ drop_last ss
drop_last-cons s [] h = absurd (h refl)
drop_last-cons s (t ∷ ts) h = refl

lines_of-line :
    (json rest : Text)
    → any (λ ch. ch == 10) json ≡ false
    → lines_of ((json ++ 10 ∷ []) ++ rest) ≡ json ∷ lines_of rest
lines_of-line json rest h =
    rw (append_assoc json (10 ∷ []) rest, split_on-append 10 json rest, split_on-plain 10 json h)
      (drop_last-cons json (split_on 10 rest) (split_on-ne-nil 10 rest))

module _ {V : Type 0} (c : Codec V) where
  -- What serde_json does: a message is written as an object, and its line breaks are escaped.
  abbrev pub IsJson : Message V → Type 0
  IsJson m =
      (json : Text)
      → c.encode m ≡ ok json
      → (any (λ ch. ch == 10) json ≡ false) × ((body : Text) × (json ≡ braced body))

  -- The stream holds what `to_ndjson` writes for the messages, one after the other.
  abbrev pub Streams : List (Message V) → Text → Type 0
  Streams [] stream = stream ≡ []
  Streams (m ∷ ms) stream =
      (line : Text) × (rest : Text) × (to_ndjson c m ≡ ok line)
      × (stream ≡ line ++ rest)
      × Streams ms rest

  -- What the other side has of a message: what its text decodes to, unless the version is another.
  abbrev pub received : Message V → Result ProtocolError (Message V)
  received m = elim (c.encode m) [
    | err e ↦ err (serialization e)
    | ok json ↦ elim (c.decode json) [
      | err e ↦ err (serialization e)
      | ok m' ↦ if text_eq (version m') version_2 then ok m' else err (invalid_version (version m'))
    ]
  ]

  from_ndjson-braced :
      (m : Message V) (body : Text)
      → c.encode m ≡ ok (braced body)
      → from_ndjson c (braced body) ≡ received m
  unfolding from_ndjson from_trimmed check_version
  from_ndjson-braced m body e = ground (arith, trim-braced body, e)

  to_ndjson-line :
      (m : Message V) (line : Text)
      → to_ndjson c m ≡ ok line
      → (json : Text) × (c.encode m ≡ ok json) × (line ≡ json ++ 10 ∷ [])
  unfolding to_ndjson
  to_ndjson-line m line h = elim (Result-cases (c.encode m)) [
    | inr (e, f) ↦ absurd (ground arith)
    | inl (json, f) ↦ (json, f, ground arith)
  ]

  -- A stream of written messages is read line by line: the reader gets each message once and in order,
  -- as what its own text decodes to, or an error where the version of that is not 2.0. The encoder
  -- writes an object and escapes line breaks, as serde_json does.
  pub from_ndjson-to_ndjson :
      (ms : List (Message V)) (stream : Text)
      → All IsJson ms
      → Streams ms stream
      → map (from_ndjson c) (lines_of stream) ≡ map received ms
  from_ndjson-to_ndjson [] stream h k = rw k (unfold split_on in refl)
  from_ndjson-to_ndjson (m ∷ ms) stream (plain, more) (line, rest, e, f, k) =
      let (json, g, shape) = to_ndjson-line m line e in
      let (no_break, shaped) = plain json g in
      let (body, braces) = shaped in
      let split : lines_of stream ≡ json ∷ lines_of rest =
        ap lines_of (f ∙ ap (λ (l : Text). l ++ rest) shape) ∙ lines_of-line json rest no_break in
      let head : from_ndjson c json ≡ received m =
        ap (from_ndjson c) braces
        ∙ from_ndjson-braced m body (g ∙ ap (λ (t : Text). ok t) braces) in
      rw (split, head, from_ndjson-to_ndjson ms rest more k) refl
