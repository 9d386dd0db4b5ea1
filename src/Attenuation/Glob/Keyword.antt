-- ===== src/Attenuation/Glob/Keyword.antt =====
-- The patterns `**/NAME/**` forbid every path with a component NAME.
use mathlib.Core.List.{append_assoc, reverse-append, reverse-cons, reverse-reverse}
use ai_garage.Common.{
  ==_iff, ltb, suc, ℕ, ◌+◌, ◌-◌, ◌≡◌, ◌≢◌, refl, ap, inl, inr, true, false, ◌||◌, List, [], ◌∷◌,
  ◌++◌, Text, text_eq, text_eq_iff, split_on, starts_with, ends_with, ends_with-append, contains,
  trim, trim_end, trim_start, reverse, is_whitespace, ◌==◌, any, length, take, length-append,
  set_contains, Bool-cases, ok, arith,
}
use ai_garage.Paths.{inner, components, is_absolute, component_eq, normal}
use ai_garage.Attenuation.Glob.{
  any_dir, any_below, keyword, has_directory, matches_trimmed, matches_glob_pattern,
  check_forbidden,
}

starts_with-one_more :
    (c : ℕ) (s q : Text)
    → starts_with (s ++ c ∷ []) (q ++ c ∷ []) ≡ (starts_with s (q ++ c ∷ []) || text_eq s q)
unfolding starts_with text_eq
starts_with-one_more c [] [] = ground arith
starts_with-one_more c [] (d ∷ []) = ground arith
starts_with-one_more c [] (d ∷ e ∷ q) = ground arith
starts_with-one_more c (x ∷ s) [] = ground arith
starts_with-one_more c (x ∷ s) (d ∷ q) = ground (arith, starts_with-one_more c s q)

-- A text with one more character at the end contains what it did, or ends with the new match.
contains-one_more :
    (c : ℕ) (s q : Text)
    → contains (s ++ c ∷ []) (q ++ c ∷ []) ≡ (contains s (q ++ c ∷ []) || ends_with s q)
unfolding contains ends_with
contains-one_more c [] q = ground (arith, starts_with-one_more c [] q, nothing_starts q)
  where
    nothing_starts : (t : Text) → starts_with [] (t ++ c ∷ []) ≡ false
    nothing_starts [] = unfold starts_with in refl
    nothing_starts (d ∷ t) = unfold starts_with in refl
contains-one_more c (x ∷ s) q =
    ground (arith, starts_with-one_more c (x ∷ s) q, contains-one_more c s q)

pieces : (s : Text) → (p : Text) × (ps : List Text) × (split_on b'/' s ≡ p ∷ ps)
unfolding split_on
pieces [] = ([], [], refl)
pieces (x ∷ s) = elim (Bool-cases (x == b'/')) [
  | inl e ↦ let (p, ps, f) = pieces s in ([], p ∷ ps, ground arith)
  | inr e ↦ let (p, ps, f) = pieces s in (x ∷ p, ps, ground arith)
]

-- The first piece, with a separator after it, begins the text.
first_piece :
    (s p : Text) (ps : List Text)
    → split_on b'/' s ≡ p ∷ ps
    → starts_with (s ++ b'/' ∷ []) (p ++ b'/' ∷ []) ≡ true
unfolding split_on starts_with
first_piece [] p ps h = ground arith
first_piece (x ∷ s) p ps h = let (q, qs, e) = pieces s in ground (arith, first_piece s q qs e)

-- Any other piece stands between two separators.
later_piece :
    (s p : Text) (ps : List Text) (k : Text)
    → split_on b'/' s ≡ p ∷ ps
    → set_contains ps k ≡ true
    → contains (s ++ b'/' ∷ []) (b'/' ∷ k ++ b'/' ∷ []) ≡ true
unfolding split_on set_contains contains starts_with
later_piece [] p ps k h m = ground arith
later_piece (x ∷ s) p ps k h m =
    let (q, qs, e) = pieces s in
    ground (arith, first_piece s q qs e, later_piece s q qs k e, text_eq_iff q k)

has_directory-piece :
    (s k : Text) → set_contains (split_on b'/' s) k ≡ true → has_directory (b'/' ∷ s) k ≡ true
unfolding has_directory
has_directory-piece s k m =
    let (q, qs, e) = pieces s in
    let whole : split_on b'/' (b'/' ∷ s) ≡ [] ∷ split_on b'/' s =
      unfold split_on in ground (arith, e) in
    ground (
      arith,
      later_piece (b'/' ∷ s) [] (split_on b'/' s) k whole m,
      contains-one_more b'/' (b'/' ∷ s) (b'/' ∷ k),
    )

inner-piece :
    (k : Text) (ss : List Text)
    → any (component_eq (normal k)) (inner ss) ≡ true
    → set_contains ss k ≡ true
unfolding inner set_contains component_eq
inner-piece k [] h = cc
inner-piece k (s ∷ ss) h = ground (arith, inner-piece k ss, text_eq_iff k s, text_eq_iff s k)

-- A component of an absolute path is found as a directory.
has_directory-component :
    (path k : Text)
    → is_absolute path ≡ true
    → any (component_eq (normal k)) (components path) ≡ true
    → has_directory path k ≡ true
unfolding is_absolute components component_eq
has_directory-component [] k a h = cc
has_directory-component (c ∷ s) k a h =
    let e : c ≡ b'/' = (==_iff c b'/').0 a in
    rw e (has_directory-piece s k (inner-piece k (split_on b'/' s) (ground arith)))

-- The pattern of a directory's name.
abbrev pub below_directory : Text → Text
below_directory k = any_dir ++ k ++ any_below

trim_end-star : (s : Text) → trim_end (s ++ b'*' ∷ []) ≡ s ++ b'*' ∷ []
unfolding trim_end trim_start is_whitespace
trim_end-star s =
    rw (reverse-append s (b'*' ∷ []), reverse-cons b'*' (reverse s), reverse-reverse s) refl

trim-stars : (s : Text) → trim (b'*' ∷ s ++ b'*' ∷ []) ≡ b'*' ∷ s ++ b'*' ∷ []
unfolding trim trim_start is_whitespace
trim-stars s = trim_end-star (b'*' ∷ s)

drop-take : (k t : Text) → take (length k) (k ++ t) ≡ k
drop-take [] t = refl
drop-take (c ∷ k) t = ap (λ (u : Text). c ∷ u) (drop-take k t)

keyword-below : (k : Text) → keyword (below_directory k) 3 ≡ ok k
unfolding keyword
keyword-below k =
    let size : length (k ++ any_below) ≡ length k + 3 = length-append k any_below in
    let count : suc (suc (suc (length k + 3))) - (3 + 3) ≡ length k = omega arith in
    let room : ltb (suc (suc (suc (length k + 3)))) (3 + 3) ≡ false = ground arith in
    rw (size, room, count, drop-take k any_below)

matches-below :
    (k path : Text) → matches_glob_pattern (below_directory k) path ≡ ok (has_directory path k)
unfolding matches_glob_pattern matches_trimmed starts_with
matches-below k path =
    let same : trim (below_directory k) ≡ below_directory k =
      rw (append_assoc k (b'/' ∷ b'*' ∷ []) (b'*' ∷ [])) at
        (trim-stars (b'*' ∷ b'/' ∷ k ++ b'/' ∷ b'*' ∷ [])) in
    rw same (rw (ends_with-append (any_dir ++ k) any_below, keyword-below k) refl)

-- A pattern `**/NAME/**` on the list of the policy refuses every absolute path that has NAME as a
-- component: the check does not pass.
pub forbidden_component :
    (ss : List Text) (k path : Text)
    → set_contains ss (below_directory k) ≡ true
    → is_absolute path ≡ true
    → any (component_eq (normal k)) (components path) ≡ true
    → check_forbidden ss path ≢ ok tt
unfolding check_forbidden set_contains
forbidden_component [] k path m a h e = cc
forbidden_component (s ∷ ss) k path m a h e = ground (
  arith,
  text_eq_iff s (below_directory k),
  matches-below k path,
  has_directory-component path k a h,
  forbidden_component ss k path,
)
