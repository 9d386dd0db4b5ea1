-- ===== src/Common/Substring.antt =====
-- What the tests on texts decide: equality, prefix, suffix, substring.
use mathlib.Core.Path.{◌≡◌, refl, ap}
use mathlib.Core.Logic.{◌↔◌, inl, inr}
use mathlib.Core.Bool.{true}
use mathlib.Core.List.{[], ◌∷◌, ◌++◌}
use mathlib.Core.Option.{some}
use native.Mathlib.Omega.{arith}
use ai_garage.Common.Tests.{or_true}
use ai_garage.Common.Strings.{Text, text_eq, starts_with, strip_prefix, ends_with, contains}

pub text_eq_iff : (s t : Text) → (text_eq s t ≡ true) ↔ (s ≡ t)
unfolding text_eq
text_eq_iff [] [] = (λ h. refl, λ h. refl)
text_eq_iff [] (y ∷ ys) = (λ h. cc, λ h. cc)
text_eq_iff (x ∷ xs) [] = (λ h. cc, λ h. cc)
text_eq_iff (x ∷ xs) (y ∷ ys) =
    (λ h. ground (arith, text_eq_iff xs ys), λ h. ground (arith, text_eq_iff xs ys))

pub text_eq_refl : (s : Text) → text_eq s s ≡ true
text_eq_refl s = (text_eq_iff s s).1 refl

pub text_eq_sym : (s t : Text) → text_eq s t ≡ text_eq t s
text_eq_sym s t = ground (arith, text_eq_iff s t, text_eq_iff t s)

pub starts_with-append : (p r : Text) → starts_with (p ++ r) p ≡ true
unfolding starts_with
starts_with-append [] r = refl
starts_with-append (c ∷ p) r = ground (arith, starts_with-append p r)

-- A text that starts with `p` is `p` with a rest.
pub starts_with-rest : (s p : Text) → starts_with s p ≡ true → (r : Text) × (s ≡ p ++ r)
unfolding starts_with
starts_with-rest s [] h = (s, refl)
starts_with-rest [] (c ∷ p) h = cc
starts_with-rest (x ∷ s) (c ∷ p) h =
    let (r, e) = starts_with-rest s p (ground arith) in (r, ground arith)

pub strip_prefix-append : (p r : Text) → strip_prefix (p ++ r) p ≡ some r
unfolding strip_prefix
strip_prefix-append [] r = refl
strip_prefix-append (c ∷ p) r = ground (arith, strip_prefix-append p r)

pub strip_prefix-eq-some : (s p r : Text) → strip_prefix s p ≡ some r → s ≡ p ++ r
unfolding strip_prefix
strip_prefix-eq-some s [] r h = ground arith
strip_prefix-eq-some [] (c ∷ p) r h = cc
strip_prefix-eq-some (x ∷ s) (c ∷ p) r h = ground (arith, strip_prefix-eq-some s p r)

pub ends_with-append : (q p : Text) → ends_with (q ++ p) p ≡ true
unfolding ends_with
ends_with-append [] [] = text_eq_refl []
ends_with-append [] (c ∷ p) = ground (arith, text_eq_refl (c ∷ p))
ends_with-append (c ∷ q) p = ground (arith, ends_with-append q p)

pub ends_with-front : (s p : Text) → ends_with s p ≡ true → (q : Text) × (s ≡ q ++ p)
unfolding ends_with
ends_with-front [] p h = ([], ground (arith, text_eq_iff [] p))
ends_with-front (c ∷ s) p h = elim (or_true _ _ h) [
  | inl e ↦ ([], (text_eq_iff (c ∷ s) p).0 e)
  | inr e ↦ let (q, f) = ends_with-front s p e in (c ∷ q, ap (λ (t : Text). c ∷ t) f)
]

pub contains-append : (q p r : Text) → contains (q ++ p ++ r) p ≡ true
unfolding contains starts_with
contains-append [] [] [] = refl
contains-append [] [] (c ∷ r) = refl
contains-append [] (c ∷ p) r = ground (arith, starts_with-append (c ∷ p) r)
contains-append (c ∷ q) p r = ground (arith, contains-append q p r)

-- A text that contains `p` is `p` between two others.
pub contains-split :
    (s p : Text) → contains s p ≡ true → (q : Text) × (r : Text) × (s ≡ q ++ p ++ r)
unfolding contains
contains-split [] p h = let (r, e) = starts_with-rest [] p h in ([], r, e)
contains-split (c ∷ s) p h = elim (or_true _ _ h) [
  | inl e ↦ let (r, f) = starts_with-rest (c ∷ s) p e in ([], r, f)
  | inr e ↦ let (q, r, f) = contains-split s p e in (c ∷ q, r, ap (λ (t : Text). c ∷ t) f)
]
