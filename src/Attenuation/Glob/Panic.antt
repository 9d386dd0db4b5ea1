-- ===== src/Attenuation/Glob/Panic.antt =====
-- The one pattern on which `matches_glob_pattern` panics.
use ai_garage.Common.{
  ◌∙◌, ◌≡◌, ◌≢◌, ◌↔◌, refl, inl, inr, true, not, List, [], ◌∷◌, ◌++◌, Text, text_eq, text_eq_iff,
  starts_with, starts_with-rest, ends_with, trim, all, Bool-cases, err, arith,
}
use ai_garage.Error.{panic}
use ai_garage.Attenuation.Glob.{
  any_dir, keyword, matches_trimmed, matches_glob_pattern, check_forbidden,
}

-- "**/**"
abbrev pub overlapping : Text
overlapping = b'*' ∷ b'*' ∷ b'/' ∷ b'*' ∷ b'*' ∷ []

-- Between the two ends of a longer text the slice is in range.
panic-rest :
    (r path : Text) → matches_trimmed (any_dir ++ r) path ≡ err panic → any_dir ++ r ≡ overlapping
unfolding matches_trimmed starts_with ends_with text_eq keyword
panic-rest [] path h = ground arith
panic-rest (a ∷ []) path h = ground arith
panic-rest (a ∷ b ∷ []) path h = ground arith
panic-rest (a ∷ b ∷ c ∷ r) path h = ground arith

-- The match panics on the pattern `**/**` (up to white space at the ends) and on no other: there the
-- slice `&p[3..p.len() - 3]` ends before it starts.
pub glob_panic_iff :
    (s path : Text) → (matches_glob_pattern s path ≡ err panic) ↔ (trim s ≡ overlapping)
unfolding matches_glob_pattern
glob_panic_iff s path = (forth, back)
  where
    forth : matches_trimmed (trim s) path ≡ err panic → trim s ≡ overlapping
    forth h = elim (Bool-cases (starts_with (trim s) any_dir)) [
      | inr e ↦ unfold matches_trimmed in ground arith
      | inl e ↦
          let (r, f) = starts_with-rest (trim s) any_dir e in f ∙ panic-rest r path (rw f at h)
    ]

    back : trim s ≡ overlapping → matches_trimmed (trim s) path ≡ err panic
    back h = rw h (unfold matches_trimmed starts_with ends_with text_eq keyword in refl)

-- Without that pattern on the list the check of the forbidden patterns never panics.
pub check_forbidden-ne-panic :
    (ss : List Text) (path : Text)
    → all (λ s. not (text_eq (trim s) overlapping)) ss ≡ true
    → check_forbidden ss path ≢ err panic
unfolding check_forbidden
check_forbidden-ne-panic [] path h e = cc
check_forbidden-ne-panic (s ∷ ss) path h e = ground (
  arith,
  (glob_panic_iff s path).0,
  text_eq_iff (trim s) overlapping,
  check_forbidden-ne-panic ss path,
)
