-- ===== src/Common/Trimming.antt =====
-- What `trim` removes.
use Prim.Native.Nat.{ℕ}
use mathlib.Core.Path.{◌≡◌, refl, ap, ◌∙◌, sym, subst}
use mathlib.Core.Logic.{inl, inr}
use mathlib.Core.Bool.{Bool, true, false}
use mathlib.Core.List.{[], ◌∷◌, ◌++◌, reverse, reverse-append, reverse-cons, reverse-reverse}
use native.Mathlib.Omega.{arith}
use ai_garage.Common.Tests.{Bool-cases, ◌==◌}
use ai_garage.Common.Lists.{any, any-append}
use ai_garage.Common.Strings.{Text, is_whitespace, trim_start, trim_end, trim}

trim_start-skip : (c : ℕ) (s : Text) → is_whitespace c ≡ true → trim_start (c ∷ s) ≡ trim_start s
unfolding trim_start
trim_start-skip c s h = rw h refl

trim_start-keep : (c : ℕ) (s : Text) → is_whitespace c ≡ false → trim_start (c ∷ s) ≡ c ∷ s
unfolding trim_start
trim_start-keep c s h = rw h refl

trim_end-snoc : (s : Text) (c : ℕ) → is_whitespace c ≡ true → trim_end (s ++ c ∷ []) ≡ trim_end s
unfolding trim_end
trim_end-snoc s c h =
    ap reverse (ap trim_start (reverse-append s (c ∷ [])) ∙ trim_start-skip c (reverse s) h)

-- White space at the end does not matter.
pub trim-snoc : (s : Text) (c : ℕ) → is_whitespace c ≡ true → trim (s ++ c ∷ []) ≡ trim s
unfolding trim
trim-snoc [] c h = ap trim_end (trim_start-skip c [] h)
trim-snoc (x ∷ s) c h = elim (Bool-cases (is_whitespace x)) [
  | inl e ↦ rw (trim_start-skip x (s ++ c ∷ []) e, trim_start-skip x s e) (trim-snoc s c h)
  | inr e ↦
      rw (trim_start-keep x (s ++ c ∷ []) e, trim_start-keep x s e) (trim_end-snoc (x ∷ s) c h)
]

pub trim-space : (s : Text) → trim (32 ∷ s) ≡ trim s
unfolding trim is_whitespace
trim-space s = ap trim_end (trim_start-skip 32 s refl)

any-reverse : (f : ℕ → Bool) (s : Text) → any f s ≡ false → any f (reverse s) ≡ false
any-reverse f [] h = refl
any-reverse f (x ∷ s) h =
    subst (λ t. any f t ≡ false) (sym (reverse-cons x s))
      (rw (any-append f (reverse s) (x ∷ []), any-reverse f s (ground arith)) (ground arith))

trim_start-plain : (s : Text) → any is_whitespace s ≡ false → trim_start s ≡ s
unfolding trim_start
trim_start-plain [] h = refl
trim_start-plain (c ∷ s) h = ground arith

pub trim-plain : (s : Text) → any is_whitespace s ≡ false → trim s ≡ s
unfolding trim trim_end
trim-plain s h =
    rw (trim_start-plain s h, trim_start-plain (reverse s) (any-reverse is_whitespace s h))
      (reverse-reverse s)

is_whitespace-space : (c : ℕ) → is_whitespace c ≡ false → (c == 32) ≡ false
unfolding is_whitespace
is_whitespace-space c h = ground arith

pub no_space : (s : Text) → any is_whitespace s ≡ false → any (λ x. x == 32) s ≡ false
no_space [] h = refl
no_space (c ∷ s) h = ground (arith, is_whitespace-space c, no_space s)

trim_start-rest : (s : Text) → (w : Text) × (s ≡ w ++ trim_start s)
unfolding trim_start
trim_start-rest [] = ([], refl)
trim_start-rest (c ∷ s) =
    let (w, e) = trim_start-rest s in
    elim (Bool-cases (is_whitespace c)) [
      | inl h ↦ (c ∷ w, rw h (ap (λ (t : Text). c ∷ t) e))
      | inr h ↦ ([], rw h refl)
    ]

trim_start_idem : (s : Text) → trim_start (trim_start s) ≡ trim_start s
unfolding trim_start
trim_start_idem [] = refl
trim_start_idem (c ∷ s) = ground (arith, trim_start_idem s)

-- What `trim_end` leaves is a front of the text.
pub trim_end-rest : (s : Text) → (w : Text) × (s ≡ trim_end s ++ w)
unfolding trim_end
trim_end-rest s =
    let (w, e) = trim_start-rest (reverse s) in
    (reverse w, sym (reverse-reverse s) ∙ ap reverse e ∙ reverse-append w (trim_start (reverse s)))

pub trim_end_idem : (s : Text) → trim_end (trim_end s) ≡ trim_end s
unfolding trim_end
trim_end_idem s =
    ap reverse
      (ap trim_start (reverse-reverse (trim_start (reverse s))) ∙ trim_start_idem (reverse s))
