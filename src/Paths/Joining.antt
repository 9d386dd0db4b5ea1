-- ===== src/Paths/Joining.antt =====
-- The components of a path that is joined.
use mathlib.Core.List.{append_assoc, append-nil}
use ai_garage.Common.{
  split_on-ne-nil, split_on-append, split_on-plain, ℕ, ◌≡◌, ◌≢◌, refl, ap, inl, inr, Bool, true,
  false, not, ◌&&◌, List, [], ◌∷◌, ◌++◌, none, some, Text, text_eq, split_on, last, ◌==◌, any,
  Bool-cases, Option-cases, arith,
}
use ai_garage.Paths.{
  normal, slash, dot, dot_dot, is_empty, inner, leading, components, is_absolute, separated, join,
}

inner-append : (ss ts : List Text) → inner (ss ++ ts) ≡ inner ss ++ inner ts
unfolding inner
inner-append [] ts = refl
inner-append (s ∷ ss) ts = ground (arith, inner-append ss ts)

-- A name that a component can have: not empty, no slash, and not `.` or `..`.
abbrev pub is_name : Text → Bool
is_name s =
    not (is_empty s)
    && not (any (λ c. c == b'/') s)
    && not (text_eq s dot)
    && not (text_eq s dot_dot)

inner-name : (s : Text) → is_name s ≡ true → inner (split_on b'/' s) ≡ normal s ∷ []
unfolding inner
inner-name s h = rw (split_on-plain b'/' s (ground arith)) (ground arith)

leading-append : (ss ts : List Text) → ss ≢ [] → leading (ss ++ ts) ≡ leading ss ++ inner ts
unfolding leading inner
leading-append [] ts h = absurd (h refl)
leading-append (s ∷ ss) ts h = ground (arith, inner-append ss ts)

-- A slash inside a path separates its components.
components-slash :
    (o : ℕ) (q t : Text)
    → components ((o ∷ q) ++ b'/' ∷ t) ≡ components (o ∷ q) ++ inner (split_on b'/' t)
unfolding components
components-slash o q t = elim (Bool-cases (o == b'/')) [
  | inl e ↦ rw (e, split_on-append b'/' q t, inner-append (split_on b'/' q)) refl
  | inr e ↦
      rw (e, split_on-append b'/' (o ∷ q) t)
        (leading-append (split_on b'/' (o ∷ q)) _ (split_on-ne-nil b'/' (o ∷ q)))
]

last-front : (s : Text) (c : ℕ) → last s ≡ some c → (q : Text) × (s ≡ q ++ c ∷ [])
last-front [] c h = cc
last-front (x ∷ []) c h = ([], ground arith)
last-front (x ∷ y ∷ ys) c h =
    let (q, e) = last-front (y ∷ ys) c h in (x ∷ q, ap (λ (t : Text). x ∷ t) e)

last-ne-none : (x : ℕ) (s : Text) → last (x ∷ s) ≢ none
last-ne-none x [] h = cc
last-ne-none x (y ∷ ys) h = last-ne-none y ys h

components-name : (s : Text) → is_name s ≡ true → components s ≡ normal s ∷ []
unfolding components leading inner
components-name [] h = cc
components-name (c ∷ s) h = ground (arith, split_on-plain b'/' (c ∷ s))

join-trailing :
    (q s : Text)
    → is_name s ≡ true
    → components (q ++ b'/' ∷ s) ≡ components (q ++ b'/' ∷ []) ++ normal s ∷ []
unfolding components inner split_on
join-trailing [] s h = ground (arith, inner-name s)
join-trailing (o ∷ q) s h =
    rw (components-slash o q s, components-slash o q [], inner-name s h)
      (ground (arith, append-nil (components (o ∷ q))))

name-relative : (s : Text) → is_name s ≡ true → is_absolute s ≡ false
unfolding is_absolute
name-relative [] h = refl
name-relative (c ∷ s) h = ground arith

after_slash :
    (b q s : Text)
    → b ≡ q ++ slash
    → is_name s ≡ true
    → components (b ++ s) ≡ components b ++ normal s ∷ []
after_slash b q s e h = rw (e, append_assoc q slash s) (join-trailing q s h)

components-separated :
    (o : ℕ) (out s : Text)
    → is_name s ≡ true
    → components (separated (o ∷ out) (last (o ∷ out)) ++ s) ≡ components (o ∷ out) ++ normal s ∷ []
unfolding separated
components-separated o out s h = elim (Option-cases (last (o ∷ out))) [
  | inl e ↦ absurd (last-ne-none o out e)
  | inr (l, e) ↦ elim (Bool-cases (l == b'/')) [
    | inr f ↦
        rw (
          e,
          separated,
          f,
          append_assoc (o ∷ out) slash s,
          components-slash o out s,
          inner-name s h,
        )
    | inl f ↦
        let (q, g) = last-front (o ∷ out) l e in
        rw (e, separated, f) (after_slash (o ∷ out) q s (ground arith) h)
  ]
]

-- Joining a name adds one component.
pub components-join :
    (out s : Text) → is_name s ≡ true → components (join out s) ≡ components out ++ normal s ∷ []
unfolding join
components-join [] s h = rw (name-relative s h) (unfold components separated in components-name s h)
components-join (o ∷ out) s h = rw (name-relative s h) (components-separated o out s h)
