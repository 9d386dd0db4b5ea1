-- ===== src/Common/Search.antt =====
-- `str::find` and `str::splitn`, as the texts around the first occurrence.
use mathlib.Core.Path.{◌≡◌, refl, subst, ◌∙◌}
use mathlib.Core.Logic.{inl, inr}
use mathlib.Core.List.{append_assoc}
use mathlib.Core.Bool.{false}
use mathlib.Core.List.{[], ◌∷◌, ◌++◌}
use mathlib.Core.Option.{Option, none, some}
use Prim.Native.Nat.{ℕ, ◌≤◌}
use native.Mathlib.Omega.{arith}
use ai_garage.Common.Tests.{◌==◌, if◌then◌else◌, Bool-cases}
use ai_garage.Common.Lists.{length, drop, any, length-append}
use ai_garage.Common.Strings.{Text, starts_with, contains}
use ai_garage.Common.Substring.{starts_with-append}

-- Where `s.find(p)` is `Some(i)`: `s[..i]` and `s[i + p.len()..]`
unfoldable pub find_split : Text → Text → Option (Text × Text)
find_split [] p = if starts_with [] p then some ([], []) else none
find_split (c ∷ s) p =
    let rest = find_split s p in
    if starts_with (c ∷ s) p
    then some ([], drop (length p) (c ∷ s))
    else elim rest [ none ↦ none | some (q, r) ↦ some (c ∷ q, r) ]

-- `s.splitn(2, c)`: the first piece, and the second where `c` occurs
unfoldable pub splitn_2 : ℕ → Text → Text × Option Text
splitn_2 c [] = ([], none)
splitn_2 c (x ∷ s) = let (p, q) = splitn_2 c s in if x == c then ([], some s) else (x ∷ p, q)

pub drop-length-append : (p r : Text) → drop (length p) (p ++ r) ≡ r
drop-length-append [] r = refl
drop-length-append (c ∷ p) r = drop-length-append p r

-- What stands behind a text does not matter for a prefix that fits into it.
pub starts_with-fits :
    (s t p : Text) → length p ≤ length s → starts_with (s ++ t) p ≡ starts_with s p
unfolding starts_with
starts_with-fits s t [] h = refl
starts_with-fits [] t (c ∷ p) h = ground arith
starts_with-fits (x ∷ s) t (c ∷ p) h = ground (arith, starts_with-fits s t p)

contains-later : (x : ℕ) (s p : Text) → contains (x ∷ s) p ≡ false → contains s p ≡ false
unfolding contains
contains-later x s p h = ground arith

regroup :
    (q front : Text) (c : ℕ) (r : Text) → (q ++ front) ++ c ∷ r ≡ q ++ ((front ++ c ∷ []) ++ r)
regroup q front c r = rw (append_assoc q front (c ∷ r), append_assoc front (c ∷ []) r) refl

fits : (x : ℕ) (q front : Text) (c : ℕ) → length (front ++ c ∷ []) ≤ length ((x ∷ q) ++ front)
fits x q front c = omega (arith, length-append front (c ∷ []), length-append q front)

not_earlier :
    (x : ℕ) (q front : Text) (c : ℕ) (r : Text)
    → contains ((x ∷ q) ++ front) (front ++ c ∷ []) ≡ false
    → starts_with (x ∷ q ++ ((front ++ c ∷ []) ++ r)) (front ++ c ∷ []) ≡ false
unfolding contains
not_earlier x q front c r h =
    subst (λ (t : Text). starts_with t (front ++ c ∷ []) ≡ false) (regroup (x ∷ q) front c r)
      (starts_with-fits ((x ∷ q) ++ front) (c ∷ r) (front ++ c ∷ []) (fits x q front c)
        ∙ (elim (Bool-cases (starts_with ((x ∷ q) ++ front) (front ++ c ∷ []))) [
          | inl e ↦ ground arith
          | inr e ↦ e
        ]))

pub find_split-here : (p r : Text) → find_split (p ++ r) p ≡ some ([], r)
unfolding find_split starts_with
find_split-here [] [] = refl
find_split-here [] (c ∷ r) = refl
find_split-here (c ∷ p) r =
    ground (arith, starts_with-append (c ∷ p) r, drop-length-append (c ∷ p) r)

pub find_split-skip :
    (x : ℕ) (s p q r : Text)
    → starts_with (x ∷ s) p ≡ false
    → find_split s p ≡ some (q, r)
    → find_split (x ∷ s) p ≡ some (x ∷ q, r)
unfolding find_split
find_split-skip x s p q r h e = rw (h, e)

-- The text `front` followed by `c` is found first where it does not begin earlier.
pub find_split-first :
    (q front : Text) (c : ℕ) (r : Text)
    → contains (q ++ front) (front ++ c ∷ []) ≡ false
    → find_split (q ++ ((front ++ c ∷ []) ++ r)) (front ++ c ∷ []) ≡ some (q, r)
find_split-first [] front c r h = find_split-here (front ++ c ∷ []) r
find_split-first (x ∷ q) front c r h =
    find_split-skip x (q ++ ((front ++ c ∷ []) ++ r)) (front ++ c ∷ []) q r
      (not_earlier x q front c r h)
      (find_split-first q front c r (contains-later x (q ++ front) (front ++ c ∷ []) h))

pub splitn_2-first :
    (c : ℕ) (p r : Text) → any (λ x. x == c) p ≡ false → splitn_2 c (p ++ c ∷ r) ≡ (p, some r)
unfolding splitn_2
splitn_2-first c [] r h = ground arith
splitn_2-first c (x ∷ p) r h = ground (arith, splitn_2-first c p r)
