-- ===== src/Wal/Evidence.antt =====
-- What the chain of hashes gives evidence of, and what it does not.
use mathlib.Core.List.{append_assoc}
use ai_garage.Common.{
  ℕ, ◌≡◌, sym, ◌∙◌, refl, ap, inl, inr, List, [], ◌∷◌, ◌++◌, Text, text, length, length-append,
  Result, ok, err, Result-cases, arith, show_nat,
}
use ai_garage.Wal.{WalEvent, Codec, hash_input, event_hash, compute_hash, next_seq, genesis_hash}
use ai_garage.Wal.Chain.{IsChain, state_after}

-- Two texts of one length in front of others.
append-cancel : (a b x y : Text) → length a ≡ length b → a ++ x ≡ b ++ y → (a ≡ b) × (x ≡ y)
append-cancel [] [] x y h e = (refl, e)
append-cancel [] (d ∷ b) x y h e = absurd (omega arith)
append-cancel (c ∷ a) [] x y h e = absurd (omega arith)
append-cancel (c ∷ a) (d ∷ b) x y h e =
    let (p, q) = append-cancel a b x y (omega arith) (ground arith) in (ground arith, q)

prefix-cancel : (p x y : Text) → p ++ x ≡ p ++ y → x ≡ y
prefix-cancel p x y e = (append-cancel p p x y refl e).1

-- The previous hash comes first in what is hashed.
hash_input_split :
    (p : Text) (n : ℕ) (t y c : Text)
    → hash_input p n t y c ≡ p ++ b':' ∷ (show_nat n ++ b':' ∷ (t ++ b':' ∷ (y ++ b':' ∷ c)))
unfolding hash_input
hash_input_split p n t y c = simp append_assoc

module _ {V : Type 0} (c : Codec V) where
  -- The bytes that are hashed for an event, where its payload can be written.
  abbrev pub input_of : WalEvent V → Result Text Text
  input_of e = elim (c.payload_text e.payload) [
    | err x ↦ err x
    | ok canonical ↦ ok (hash_input e.prev_hash e.seq e.timestamp_utc e.event_type canonical)
  ]

  -- No two events that stand at one place in the logs have different bytes and one digest.
  abbrev pub NoCollision : List (WalEvent V) → List (WalEvent V) → Type 0
  NoCollision (e ∷ es) (f ∷ fs) =
      ((a b : Text) → input_of e ≡ ok a → input_of f ≡ ok b → c.sha256 a ≡ c.sha256 b → a ≡ b)
      × NoCollision es fs
  NoCollision _ _ = Unit

  -- Place by place, one hash and the same bytes hashed.
  abbrev pub SameRecords : List (WalEvent V) → List (WalEvent V) → Type 0
  SameRecords [] [] = Unit
  SameRecords (e ∷ es) (f ∷ fs) =
      (e.hash ≡ f.hash)
      × (e.prev_hash ≡ f.prev_hash)
      × (input_of e ≡ input_of f)
      × SameRecords es fs
  SameRecords _ _ = ⊥

  hash-input :
      (e : WalEvent V)
      → event_hash c e ≡ ok e.hash
      → (a : Text) × (input_of e ≡ ok a)
        × (e.hash ≡ text "sha256:" ++ c.sha256 a)
        × ((r : Text) × (a ≡ e.prev_hash ++ r))
  unfolding event_hash compute_hash
  hash-input e h = elim (Result-cases (c.payload_text e.payload)) [
    | inr (x, f) ↦ absurd (ground arith)
    | inl (canonical, f) ↦ (
      hash_input e.prev_hash e.seq e.timestamp_utc e.event_type canonical,
      ground arith,
      ground arith,
      (_, hash_input_split e.prev_hash e.seq e.timestamp_utc e.event_type canonical),
    )
  ]

  -- One event: the hash and the length of the previous hash decide the bytes.
  same_event :
      (e f : WalEvent V)
      → event_hash c e ≡ ok e.hash
      → event_hash c f ≡ ok f.hash
      → ((a b : Text) → input_of e ≡ ok a → input_of f ≡ ok b → c.sha256 a ≡ c.sha256 b → a ≡ b)
      → length e.prev_hash ≡ length f.prev_hash
      → e.hash ≡ f.hash
      → (e.prev_hash ≡ f.prev_hash) × (input_of e ≡ input_of f)
  same_event e f he hf apart len same =
      let (a, ia, da, za) = hash-input e he in
      let (ra, sa) = za in
      let (b, ib, db, zb) = hash-input f hf in
      let (rb, sb) = zb in
      let digests = prefix-cancel (text "sha256:") (c.sha256 a) (c.sha256 b) (sym da ∙ same ∙ db) in
      let bytes = apart a b ia ib digests in
      (
        (append-cancel e.prev_hash f.prev_hash ra rb len (sym sa ∙ bytes ∙ sb)).0,
        ia ∙ ap ok bytes ∙ sym ib,
      )

  module _ (one_size : (a b : Text) → length (c.sha256 a) ≡ length (c.sha256 b)) where
    hash-length :
        (e f : WalEvent V)
        → event_hash c e ≡ ok e.hash
        → event_hash c f ≡ ok f.hash
        → length e.hash ≡ length f.hash
    hash-length e f he hf =
        let (a, ia, da, _) = hash-input e he in
        let (b, ib, db, _) = hash-input f hf in
        omega (
          arith,
          ap length da,
          ap length db,
          length-append (text "sha256:") (c.sha256 a),
          length-append (text "sha256:") (c.sha256 b),
          one_size a b,
        )

    same_chain :
        (n m : ℕ) (p q : Text) (es fs : List (WalEvent V))
        → IsChain c n p es
        → IsChain c m q fs
        → length p ≡ length q
        → length es ≡ length fs
        → (state_after c n p es).1 ≡ (state_after c m q fs).1
        → NoCollision es fs
        → (p ≡ q) × SameRecords es fs
    same_chain n m p q [] [] k l len size same apart = (same, tt)
    same_chain n m p q [] (f ∷ fs) k l len size same apart = absurd (omega arith)
    same_chain n m p q (e ∷ es) [] k l len size same apart = absurd (omega arith)
    same_chain n m p q (e ∷ es) (f ∷ fs) (se, pe, he, ke) (sf, pf, hf, kf) len size same apart =
        let (hashes, rest) =
          same_chain (next_seq n) (next_seq m) e.hash f.hash es fs ke kf (hash-length e f he hf)
            (omega arith) same apart.1 in
        let (prevs, inputs) =
          same_event e f he hf apart.0 (ap length pe ∙ len ∙ sym (ap length pf)) hashes in
        (sym pe ∙ prevs ∙ pf, (hashes, prevs, inputs, rest))

    -- Two logs of one length that both validate and end with one hash agree at every place: in the
    -- hashes, the links and the bytes that were hashed, if the digest has one length and no two of
    -- their events collide.
    pub tamper_evident :
        (es fs : List (WalEvent V))
        → IsChain c 0 genesis_hash es
        → IsChain c 0 genesis_hash fs
        → length es ≡ length fs
        → (state_after c 0 genesis_hash es).1 ≡ (state_after c 0 genesis_hash fs).1
        → NoCollision es fs
        → SameRecords es fs
    tamper_evident es fs k l size same apart =
        (same_chain 0 0 genesis_hash genesis_hash es fs k l refl size same apart).1

  -- The same events under another session identifier.
  abbrev pub relabel : Text → List (WalEvent V) → List (WalEvent V)
  relabel sid [] = []
  relabel sid (e ∷ es) = record e { session_id = sid } ∷ relabel sid es

  -- The session identifier is not hashed: a chain stays one when it is changed throughout.
  pub relabel-IsChain :
      (n : ℕ) (prev sid : Text) (es : List (WalEvent V))
      → IsChain c n prev es
      → IsChain c n prev (relabel sid es)
  unfolding event_hash
  relabel-IsChain n prev sid [] k = tt
  relabel-IsChain n prev sid (e ∷ es) k =
      (k.0, k.1, k.2, relabel-IsChain (next_seq n) e.hash sid es k.3)
