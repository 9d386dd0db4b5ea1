-- ===== src/Policy/Blacklist.antt =====
-- What the blacklist blocks.
use mathlib.Core.List.{append_assoc}
use ai_garage.Common.{
  ℕ, ◌≡◌, refl, ap, true, false, ◌||◌, [], ◌∷◌, ◌++◌, Text, text_eq, text_eq_iff, strip_prefix,
  ends_with, ends_with-append, ends_with-front, to_lowercase, to_lowercase_idem,
  to_lowercase-append, to_lowercase-of_lower, has_upper, has_upper-append, has_upper-to_lowercase,
  any-of_contains, set_contains, arith, Bool-cases, inl, inr,
}
use ai_garage.Policy.{SecurityPolicy, wildcard, pattern_blocks, is_domain_blacklisted}

-- The spelling of a domain does not matter.
pub blacklisted-to_lowercase :
    (p : SecurityPolicy) (d : Text)
    → is_domain_blacklisted p (to_lowercase d) ≡ is_domain_blacklisted p d
unfolding is_domain_blacklisted
blacklisted-to_lowercase p d = rw to_lowercase_idem

-- No text without capitals ends with a text that has one.
not-ends_with-upper :
    (d s : Text) → has_upper d ≡ false → has_upper s ≡ true → ends_with d s ≡ false
not-ends_with-upper d s h k = elim (Bool-cases (ends_with d s)) [
  | inr e ↦ e
  | inl e ↦
      let (q, f) = ends_with-front d s e in ground (arith, has_upper-append q s, ap has_upper f)
]

pattern_blocks-wildcard :
    (d s : Text) → pattern_blocks d (wildcard ++ s) ≡ (ends_with d s || text_eq d s)
unfolding pattern_blocks strip_prefix
pattern_blocks-wildcard d s = refl

ends_with-after : (x s : Text) (c : ℕ) → ends_with (x ++ c ∷ s) s ≡ true
ends_with-after x s c = rw (← append_assoc x (c ∷ []) s) (ends_with-append (x ++ c ∷ []) s)

-- An entry `*.s` without capitals blocks the domain `s` and each of its subdomains.
pub wildcard_blocks :
    (p : SecurityPolicy) (s x : Text)
    → set_contains p.network.blacklisted_domains (wildcard ++ s) ≡ true
    → has_upper s ≡ false
    → (is_domain_blacklisted p s ≡ true) × (is_domain_blacklisted p (x ++ b'.' ∷ s) ≡ true)
unfolding is_domain_blacklisted
wildcard_blocks p s x h k =
    let plain = ends_with-append [] s in
    let dotted = ends_with-after (to_lowercase x) s b'.' in
    let same = to_lowercase-of_lower (b'.' ∷ s) k in
    (
      any-of_contains _ _ (wildcard ++ s) h
          (rw (pattern_blocks-wildcard, to_lowercase-of_lower s k) (ground (arith, plain))),
      any-of_contains _ _ (wildcard ++ s) h (
          rw (pattern_blocks-wildcard, to_lowercase-append x (b'.' ∷ s), same)
            (ground (arith, dotted))),
    )

-- An entry `*.s` with a capital in `s` blocks no domain at all.
pub capital_wildcard :
    (s d : Text) → has_upper s ≡ true → pattern_blocks (to_lowercase d) (wildcard ++ s) ≡ false
capital_wildcard s d h = rw (pattern_blocks-wildcard) (
    ground (
      arith,
      not-ends_with-upper (to_lowercase d) s,
      has_upper-to_lowercase d,
      text_eq_iff (to_lowercase d) s,
    ))
