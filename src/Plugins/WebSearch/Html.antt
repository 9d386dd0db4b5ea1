-- ===== src/Plugins/WebSearch/Html.antt =====
-- crates/plugins/chassis-tools-websearch/src/search.rs: the text of an HTML page.
use ai_garage.Common.{
  ℕ, zero, suc, ◌+◌, ◌-◌, ◌==◌, Bool, true, false, [], ◌∷◌, ◌++◌, Option, none, some, Text, text,
  starts_with, length, take, drop, is_whitespace, trim, to_lowercase, find_split, if◌then◌else◌,
}

-- The characters outside of tags.
unfoldable pub strip_tags : Bool → Text → Text
strip_tags inside_tag [] = []
strip_tags inside_tag (ch ∷ s) =
    let rest =
      strip_tags (if ch == b'<' then true else if ch == b'>' then false else inside_tag) s in
    if ch == b'<' then rest else if ch == b'>' then rest else if inside_tag then rest else ch ∷ rest

-- `s.replace(from, to)` for a text `from` that is not empty, `skip` characters of a match still to
-- pass.
unfoldable pub replace : Text → Text → ℕ → Text → Text
replace from to skip [] = []
replace from to (suc k) (c ∷ s) = replace from to k s
replace from to zero (c ∷ s) = elim (starts_with (c ∷ s) from) [
  | true ↦ to ++ replace from to (length from - 1) s
  | false ↦ c ∷ replace from to zero s
]

-- The entities, in the order in which they are decoded.
unfoldable pub unescape : Text → Text
unfolding replace
unescape output =
    let amp = replace (text "&amp;") (text "&") 0 output in
    let lt = replace (text "&lt;") (text "<") 0 amp in
    let gt = replace (text "&gt;") (text ">") 0 lt in
    let quot = replace (text "&quot;") (text "\"") 0 gt in
    let apos = replace (text "&#39;") (text "'") 0 quot in replace (text "&nbsp;") (text " ") 0 apos

-- One space for each run of white space.
unfoldable pub normalize : Bool → Text → Text
normalize last_was_space [] = []
normalize last_was_space (ch ∷ s) =
    let rest = normalize (is_whitespace ch) s in
    if is_whitespace ch then (if last_was_space then rest else 32 ∷ rest) else ch ∷ rest

unfoldable pub strip_html_tags : Text → Text
unfolding strip_tags unescape normalize
strip_html_tags input = trim (normalize false (unescape (strip_tags false input)))

-- The title ends where the first end tag stands in the text after the first start tag. Positions are
-- those of the copy in lower case.
unfoldable pub extract_title : Text → Option Text
unfolding find_split
extract_title html = elim (find_split (to_lowercase html) (text "<title>")) [
  | none ↦ none
  | some (before, _) ↦
      let after_start = drop (length before + length (text "<title>")) html in
      elim (find_split (to_lowercase after_start) (text "</title>")) [
        | none ↦ none
        | some (title, _) ↦ some (trim (take (length title) after_start))
      ]
]
