-- ===== src/Attenuation/Glob.antt =====
-- crates/chassis-core/src/attenuation.rs: `matches_glob_pattern` and the loop over the forbidden
-- patterns.
pub mod Keyword
pub mod Panic
use ai_garage.Common.{
  ℕ, ◌+◌, ◌-◌, Bool, true, false, ◌&&◌, ◌||◌, List, [], ◌∷◌, ◌++◌, Text, starts_with, ends_with,
  strip_suffix, contains, trim, length, take, drop, ltb, Option, none, some, Result, ok, err, ◌>>=◌,
  if◌then◌else◌,
}
use ai_garage.Error.{CoreError, Fault, failed, panic, forbidden_path}

-- "**/"
abbrev pub any_dir : Text
any_dir = b'*' ∷ b'*' ∷ b'/' ∷ []

-- "/**"
abbrev pub any_below : Text
any_below = b'/' ∷ b'*' ∷ b'*' ∷ []

-- `&p[3..p.len() - back]`, which panics where the end stands before the start.
unfoldable pub keyword : Text → ℕ → Result Fault Text
keyword p back =
    if ltb (length p) (3 + back) then err panic else ok (take (length p - (3 + back)) (drop 3 p))

-- A path below or at a directory of the name `key`.
unfoldable pub has_directory : Text → Text → Bool
has_directory path_str key =
    contains path_str (b'/' ∷ key ++ b'/' ∷ [])
    || starts_with path_str (key ++ b'/' ∷ [])
    || ends_with path_str (b'/' ∷ key)

unfoldable pub matches_trimmed : Text → Text → Result Fault Bool
matches_trimmed p path_str =
    if starts_with p any_dir && ends_with p any_below
    then (do key ← keyword p 3; ok (has_directory path_str key))
    else if starts_with p any_dir && ends_with p (b'*' ∷ [])
    then (do key ← keyword p 1; ok (contains path_str key))
    else elim (strip_suffix p any_below) [
      | some start ↦ ok (starts_with path_str start)
      | none ↦ ok (contains path_str p)
    ]

unfoldable pub matches_glob_pattern : Text → Text → Result Fault Bool
matches_glob_pattern pattern_text path_str = matches_trimmed (trim pattern_text) path_str

-- The loop over the forbidden patterns: the first match ends it.
unfoldable pub check_forbidden : List Text → Text → Result Fault (Unit {0})
check_forbidden [] path_str = ok tt
check_forbidden (pattern_text ∷ rest) path_str =
    let later = check_forbidden rest path_str in
    do
      hit ← matches_glob_pattern pattern_text path_str
      if hit then err (failed (forbidden_path path_str)) else later
