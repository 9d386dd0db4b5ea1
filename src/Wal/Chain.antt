-- ===== src/Wal/Chain.antt =====
-- What `validate_integrity` accepts: lines whose events form a chain.
use ai_garage.Common.{
  ℕ, ◌+◌, ◌≡◌, ◌↔◌, subst, refl, inl, inr, List, [], ◌∷◌, ◌++◌, Option, none, some, Text,
  text_eq_iff, trim, ok, err, if◌then◌else◌, Bool-cases, Result-cases, arith, split_on,
}
use ai_garage.Paths.{is_empty}
use ai_garage.Wal.{
  WalEvent, Codec, event_hash, check_event, read_event, read_lines, next_seq, front_lines,
  validate_integrity, genesis_hash, recovered,
}

module _ {V : Type 0} (c : Codec V) where
  -- Consecutive numbers from `n`, each event naming the hash before it, `prev` first, and each hash
  -- the one of its event.
  abbrev pub IsChain : ℕ → Text → List (WalEvent V) → Type 0
  IsChain n prev [] = Unit
  IsChain n prev (e ∷ es) =
      (e.seq ≡ n)
      × (e.prev_hash ≡ prev)
      × (event_hash c e ≡ ok e.hash)
      × IsChain (next_seq n) e.hash es

  -- The events of the lines that are not blank, if all of those parse.
  abbrev pub events_of : List Text → Option (List (WalEvent V))
  events_of [] = some []
  events_of (line ∷ rest) =
      let later = events_of rest in
      if is_empty (trim line) then later else elim (c.parse_event (trim line)) [
        | err e ↦ none
        | ok event ↦ elim later [ none ↦ none | some events ↦ some (event ∷ events) ]
      ]

  check_event_iff :
      (n : ℕ) (prev : Text) (e : WalEvent V)
      → (check_event c n prev e ≡ ok tt)
        ↔ ((e.seq ≡ n) × (e.prev_hash ≡ prev) × (event_hash c e ≡ ok e.hash))
  unfolding check_event
  check_event_iff n prev e = elim (Result-cases (event_hash c e)) [
    | inl (h, f) ↦ rw f (
      λ k. ground (arith, text_eq_iff e.prev_hash prev, text_eq_iff e.hash h),
      λ k. ground (arith, text_eq_iff e.prev_hash prev, text_eq_iff e.hash h),
    )
    | inr (x, f) ↦ rw f (λ k. ground (arith), λ k. ground (arith))
  ]

  read_lines_sound :
      (i n : ℕ) (prev : Text) (lines : List Text) (es : List (WalEvent V))
      → read_lines c i n prev lines ≡ ok es
      → (events_of lines ≡ some es) × IsChain n prev es
  unfolding read_lines read_event
  read_lines_sound i n prev [] es h =
      let k : ◌≡◌ {A = List (WalEvent V)} [] es = ground arith in
      subst (λ u. (events_of [] ≡ some u) × IsChain n prev u) k (refl, tt)
  read_lines_sound i n prev (line ∷ rest) es h = elim (Bool-cases (is_empty (trim line))) [
    | inl b ↦ let (p, q) = read_lines_sound (i + 1) n prev rest es (ground arith) in (rw b p, q)
    | inr b ↦ elim (Result-cases (c.parse_event (trim line))) [
      | inr (x, f) ↦ absurd (ground arith)
      | inl (e, f) ↦ elim (Result-cases (read_lines c (i + 1) (next_seq n) e.hash rest)) [
        | inr (x, g) ↦ absurd (ground arith)
        | inl (later, g) ↦
            let (p, q) = read_lines_sound (i + 1) (next_seq n) e.hash rest later g in
            let k : e ∷ later ≡ es = ground arith in
            let (s, l, t) = (check_event_iff n prev e).0 (ground arith) in
            subst (λ u. (events_of (line ∷ rest) ≡ some u) × IsChain n prev u) k
              (ground arith, (s, l, t, q))
      ]
    ]
  ]

  read_lines_complete :
      (i n : ℕ) (prev : Text) (lines : List Text) (es : List (WalEvent V))
      → events_of lines ≡ some es
      → IsChain n prev es
      → read_lines c i n prev lines ≡ ok es
  unfolding read_lines read_event
  read_lines_complete i n prev [] es h k = ground arith
  read_lines_complete i n prev (line ∷ rest) [] h k = elim (Bool-cases (is_empty (trim line))) [
    | inl b ↦ ground (arith, read_lines_complete (i + 1) n prev rest [])
    | inr b ↦ ground arith
  ]
  read_lines_complete i n prev (line ∷ rest) (e ∷ es) h k =
      elim (Bool-cases (is_empty (trim line))) [
        | inl b ↦ rw b (read_lines_complete (i + 1) n prev rest (e ∷ es) (ground arith) k)
        | inr b ↦ ground (
          arith,
          (check_event_iff n prev e).1 (k.0, k.1, k.2),
          read_lines_complete (i + 1) (next_seq n) e.hash rest es,
        )
      ]

  -- A log is accepted, with its events, exactly when all its lines that are not blank parse and
  -- their events form a chain from the genesis hash.
  pub validate_integrity_iff :
      (content : Text) (es : List (WalEvent V))
      → (validate_integrity c (ok content) ≡ ok es)
        ↔ ((events_of (front_lines (split_on 10 content)) ≡ some es) × IsChain 0 genesis_hash es)
  unfolding validate_integrity
  validate_integrity_iff content es = (
    λ h. read_lines_sound 0 0 genesis_hash (front_lines (split_on 10 content)) es h,
    λ h. read_lines_complete 0 0 genesis_hash (front_lines (split_on 10 content)) es h.0 h.1,
  )

  -- The number and the hash after a chain.
  abbrev pub state_after : ℕ → Text → List (WalEvent V) → ℕ × Text
  state_after n prev [] = (n, prev)
  state_after n prev (e ∷ es) = state_after (next_seq n) e.hash es

  pub recovered-chain :
      (n : ℕ) (prev : Text) (e : WalEvent V) (es : List (WalEvent V))
      → IsChain n prev (e ∷ es)
      → recovered (e ∷ es) ≡ state_after n prev (e ∷ es)
  unfolding recovered
  recovered-chain n prev e [] k = ground arith
  recovered-chain n prev e (d ∷ ds) k = recovered-chain (next_seq n) e.hash d ds k.3

  -- A chain goes on where it ended.
  pub IsChain-append :
      (n : ℕ) (prev : Text) (es : List (WalEvent V)) (e : WalEvent V)
      → IsChain n prev es
      → IsChain (state_after n prev es).0 (state_after n prev es).1 (e ∷ [])
      → IsChain n prev (es ++ e ∷ [])
  IsChain-append n prev [] e k l = l
  IsChain-append n prev (d ∷ ds) e k l =
      (k.0, k.1, k.2, IsChain-append (next_seq n) d.hash ds e k.3 l)

  pub state_after-append :
      (n : ℕ) (prev : Text) (es : List (WalEvent V)) (e : WalEvent V)
      → state_after n prev (es ++ e ∷ []) ≡ (next_seq (state_after n prev es).0, e.hash)
  state_after-append n prev [] e = refl
  state_after-append n prev (d ∷ ds) e = state_after-append (next_seq n) d.hash ds e
