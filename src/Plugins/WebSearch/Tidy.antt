-- ===== src/Plugins/WebSearch/Tidy.antt =====
-- The text that is read off a page.
use ai_garage.Common.{
  ℕ, ◌≡◌, ◌==◌, refl, ap, ◌∙◌, Bool, true, false, ◌&&◌, ◌||◌, not, [], ◌∷◌, ◌++◌, Text, any,
  Bool-cases, inl, inr, is_whitespace, trim, trim_start, trim_end, trim_end-rest, trim_end_idem,
  subst, if◌then◌else◌, arith,
}
use ai_garage.Plugins.WebSearch.{strip_tags, unescape, normalize, strip_html_tags}

-- White space is single spaces, and there is none at the start where `after_space`.
abbrev pub is_tidy : Bool → Text → Bool
is_tidy after_space [] = true
is_tidy after_space (c ∷ s) =
    (if is_whitespace c then not after_space && c == 32 else true) && is_tidy (is_whitespace c) s

space-is_whitespace : is_whitespace 32 ≡ true
unfolding is_whitespace
space-is_whitespace = refl

is_tidy-space : (s : Text) → is_tidy true s ≡ true → is_tidy false (32 ∷ s) ≡ true
is_tidy-space s h = rw space-is_whitespace h

is_tidy-plain :
    (b : Bool) (c : ℕ) (s : Text)
    → is_whitespace c ≡ false
    → is_tidy false s ≡ true
    → is_tidy b (c ∷ s) ≡ true
is_tidy-plain b c s e h = rw e h

after_space :
    (b : Bool) (s : Text) → is_tidy true s ≡ true → is_tidy b (if b then s else 32 ∷ s) ≡ true
after_space true s h = h
after_space false s h = is_tidy-space s h

normalize-tidy : (b : Bool) (s : Text) → is_tidy b (normalize b s) ≡ true
unfolding normalize
normalize-tidy b [] = refl
normalize-tidy b (c ∷ s) = elim (Bool-cases (is_whitespace c)) [
  | inl e ↦ rw e (after_space b (normalize true s) (normalize-tidy true s))
  | inr e ↦ rw e (is_tidy-plain b c (normalize false s) e (normalize-tidy false s))
]

-- A front of tidy text is tidy.
is_tidy-front : (b : Bool) (s t : Text) → is_tidy b (s ++ t) ≡ true → is_tidy b s ≡ true
is_tidy-front b [] t h = refl
is_tidy-front b (c ∷ s) t h = ground (arith, is_tidy-front (is_whitespace c) s t)

-- Without the white space at its start, tidy text does not start with any.
is_tidy-trim_start : (b : Bool) (s : Text) → is_tidy b s ≡ true → is_tidy true (trim_start s) ≡ true
unfolding trim_start
is_tidy-trim_start b [] h = refl
is_tidy-trim_start b (c ∷ s) h = ground (arith, is_tidy-trim_start true s)

trim_start-tidy : (s : Text) → is_tidy true s ≡ true → trim_start s ≡ s
unfolding trim_start
trim_start-tidy [] h = refl
trim_start-tidy (c ∷ s) h = ground arith

-- Outside of tags, text without angle brackets stays; a tag goes.
strip_tags-text :
    (s t : Text)
    → any (λ c. c == b'<' || c == b'>') s ≡ false
    → strip_tags false (s ++ t) ≡ s ++ strip_tags false t
unfolding strip_tags
strip_tags-text [] t h = refl
strip_tags-text (c ∷ s) t h = ground (arith, strip_tags-text s t)

strip_tags-tag :
    (s t : Text)
    → any (λ c. c == b'<' || c == b'>') s ≡ false
    → strip_tags true (s ++ b'>' ∷ t) ≡ strip_tags false t
unfolding strip_tags
strip_tags-tag [] t h = refl
strip_tags-tag (c ∷ s) t h = ground (arith, strip_tags-tag s t)

-- What is read off a page is tidy and has no white space around it.
trim-tidy :
    (s : Text) → is_tidy false s ≡ true → (is_tidy true (trim s) ≡ true) × (trim (trim s) ≡ trim s)
unfolding trim
trim-tidy s h =
    let start = trim_start s in
    let (w, e) = trim_end-rest start in
    let tidy : is_tidy true (trim_end start) ≡ true =
      is_tidy-front true (trim_end start) w
        (subst (λ (t : Text). is_tidy true t ≡ true) e (is_tidy-trim_start false s h)) in
    (tidy, ap trim_end (trim_start-tidy (trim_end start) tidy) ∙ trim_end_idem start)

-- The text that is read off a page is clean: its white space is single spaces, and there is none
-- around it.
pub strip_html_tags-tidy :
    (input : Text)
    → (is_tidy true (strip_html_tags input) ≡ true)
      × (trim (strip_html_tags input) ≡ strip_html_tags input)
unfolding strip_html_tags
strip_html_tags-tidy input = trim-tidy _ (normalize-tidy false (unescape (strip_tags false input)))

-- An element loses its tag and keeps its text: a tag between texts goes, and what is before it stays.
pub strip_tags-element :
    (s tag t : Text)
    → any (λ c. c == b'<' || c == b'>') s ≡ false
    → any (λ c. c == b'<' || c == b'>') tag ≡ false
    → strip_tags false (s ++ b'<' ∷ (tag ++ b'>' ∷ t)) ≡ s ++ strip_tags false t
unfolding strip_tags
strip_tags-element s tag t h k =
    strip_tags-text s (b'<' ∷ (tag ++ b'>' ∷ t)) h
    ∙ ap (λ (u : Text). s ++ u) (strip_tags-tag tag t k)
