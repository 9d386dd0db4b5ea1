-- ===== src/Router/Hosts.antt =====
-- crates/chassis-core/src/router.rs: the host that the firewall reads out of a URL.
use mathlib.Core.List.{append-nil}
use ai_garage.Common.{
  ap, ◌∙◌, ℕ, suc, zero, ◌≡◌, ◌≢◌, refl, Bool, true, false, ◌||◌, List, [], ◌∷◌, ◌++◌, Text,
  starts_with, split_on, split_on-ne-nil, any, ◌==◌, arith,
}
use ai_garage.Router.{split_text, scheme_end, second_or, first_or, url_domain, host_only}

-- The text has no `c`.
abbrev pub Lacks : ℕ → Text → Type 0
Lacks c s = any (λ x. x == c) s ≡ false

split_text-ne-nil : (sep : Text) (k : ℕ) (s : Text) → split_text sep k s ≢ []
unfolding split_text
split_text-ne-nil sep k [] h = cc
split_text-ne-nil sep (suc k) (c ∷ s) h = split_text-ne-nil sep k s h
split_text-ne-nil sep zero (c ∷ s) h = ground arith

-- The pieces from a scheme on: the scheme, and what is after its end.
split_scheme :
    (scheme rest : Text)
    → Lacks b':' scheme
    → split_text scheme_end 0 (scheme ++ scheme_end ++ rest) ≡ scheme ∷ split_text scheme_end 0 rest
unfolding split_text starts_with
split_scheme [] rest h = refl
split_scheme (c ∷ scheme) rest h = ground (arith, split_scheme scheme rest)

-- The first piece begins with a text that has no separator in it.
first-split_text :
    (host t u : Text)
    → Lacks b':' host
    → first_or (split_text scheme_end 0 (host ++ t)) u
      ≡ host ++ first_or (split_text scheme_end 0 t) u
unfolding split_text starts_with first_or
first-split_text [] t u h = refl
first-split_text (c ∷ host) t u h =
    ground (arith, first-split_text host t u, split_text-ne-nil scheme_end 0 (host ++ t))

first-split_on :
    (c : ℕ) (host t u : Text)
    → Lacks c host
    → first_or (split_on c (host ++ t)) u ≡ host ++ first_or (split_on c t) u
unfolding split_on first_or
first-split_on c [] t u h = refl
first-split_on c (x ∷ host) t u h =
    ground (arith, first-split_on c host t u, split_on-ne-nil c (host ++ t))

-- The text is empty, or begins with a colon or a slash.
abbrev pub ends_host : Text → Bool
ends_host [] = true
ends_host (c ∷ t) = c == b':' || c == b'/'

abbrev empty_or_colon : Text → Bool
empty_or_colon [] = true
empty_or_colon (c ∷ t) = c == b':'

first-split_text-ends :
    (t u : Text) → ends_host t ≡ true → ends_host (first_or (split_text scheme_end 0 t) u) ≡ true
unfolding split_text first_or
first-split_text-ends [] u h = refl
first-split_text-ends (c ∷ t) u h = ground (arith, split_text-ne-nil scheme_end 0 t)

first-split_on-ends :
    (t u : Text) → ends_host t ≡ true → empty_or_colon (first_or (split_on b'/' t) u) ≡ true
unfolding split_on first_or
first-split_on-ends [] u h = refl
first-split_on-ends (c ∷ t) u h = ground (arith, split_on-ne-nil b'/' t)

first-split_on-colon : (t u : Text) → empty_or_colon t ≡ true → first_or (split_on b':' t) u ≡ []
unfolding split_on first_or
first-split_on-colon [] u h = refl
first-split_on-colon (c ∷ t) u h = ground (arith, split_on-ne-nil b':' t)

second_or-ne-nil : (p u : Text) (ps : List Text) → ps ≢ [] → second_or (p ∷ ps) u ≡ first_or ps u
unfolding second_or first_or
second_or-ne-nil p u [] h = absurd (h refl)
second_or-ne-nil p u (q ∷ qs) h = refl

-- Of a URL whose scheme has no colon, the host is the text between the scheme's end and the first
-- colon or slash, whatever follows it.
pub host_of_url :
    (scheme host rest : Text)
    → Lacks b':' scheme
    → Lacks b':' host
    → Lacks b'/' host
    → ends_host rest ≡ true
    → host_only (url_domain (scheme ++ scheme_end ++ (host ++ rest))) ≡ host
unfolding host_only url_domain
host_of_url scheme host rest a b c d =
    let u = scheme ++ scheme_end ++ (host ++ rest) in
    let piece = first_or (split_text scheme_end 0 rest) u in
    let after : second_or (split_text scheme_end 0 u) u ≡ host ++ piece =
      ap (λ l. second_or l u) (split_scheme scheme (host ++ rest) a)
      ∙ second_or-ne-nil scheme u _ (split_text-ne-nil scheme_end 0 (host ++ rest))
      ∙ first-split_text host rest u b in
    let tail = first_or (split_on b'/' piece) (host ++ piece) in
    let plain : empty_or_colon tail ≡ true =
      first-split_on-ends piece (host ++ piece) (first-split_text-ends rest u d) in
    rw (after, first-split_on b'/' host piece (host ++ piece) c)
      (first-split_on b':' host tail (host ++ tail) b
        ∙ ap (λ l. host ++ l) (first-split_on-colon tail (host ++ tail) plain)
        ∙ append-nil host)
