-- ===== src/Manifest/Validation.antt =====
-- Which manifests are accepted.
use mathlib.Core.List.{reverse-cons}
use ai_garage.Common.{
  ℕ, ◌≡◌, refl, ◌↔◌, Bool, true, false, not, [], ◌∷◌, ◌++◌, reverse, Text, is_whitespace,
  trim_start, trim_end, trim, all, all-append, Result, ok, arith, ◌&&◌,
}
use ai_garage.Manifest.{PluginManifest, is_empty, validate, from_toml}

is_empty-append_one : (s : Text) (c : ℕ) → is_empty (s ++ c ∷ []) ≡ false
is_empty-append_one [] c = refl
is_empty-append_one (x ∷ s) c = refl

is_empty-reverse : (s : Text) → is_empty (reverse s) ≡ is_empty s
is_empty-reverse [] = refl
is_empty-reverse (c ∷ s) = rw reverse-cons (is_empty-append_one (reverse s) c)

all-reverse : (s : Text) → all is_whitespace (reverse s) ≡ all is_whitespace s
all-reverse [] = refl
all-reverse (c ∷ s) =
    rw (reverse-cons, all-append is_whitespace (reverse s) (c ∷ [])) (ground (arith, all-reverse s))

is_empty-trim_start : (s : Text) → is_empty (trim_start s) ≡ all is_whitespace s
unfolding trim_start
is_empty-trim_start [] = refl
is_empty-trim_start (c ∷ s) = ground (arith, is_empty-trim_start s)

-- Trimming at the start keeps what is not blank.
all-trim_start : (s : Text) → all is_whitespace (trim_start s) ≡ all is_whitespace s
unfolding trim_start
all-trim_start [] = refl
all-trim_start (c ∷ s) = ground (arith, all-trim_start s)

is_empty-trim_end : (s : Text) → is_empty (trim_end s) ≡ all is_whitespace s
unfolding trim_end
is_empty-trim_end s = rw (is_empty-reverse, is_empty-trim_start) (all-reverse s)

-- A trimmed text is empty when every character is white space.
pub is_empty-trim : (s : Text) → is_empty (trim s) ≡ all is_whitespace s
unfolding trim
is_empty-trim s = rw (is_empty-trim_end) (all-trim_start s)

-- What the kernel asks of a manifest: an id, a name and a version that are not blank, and an
-- executable.
abbrev pub is_complete : PluginManifest → Bool
is_complete m =
    not (all is_whitespace m.plugin.id)
    && not (all is_whitespace m.plugin.name)
    && not (all is_whitespace m.plugin.version)
    && not (is_empty m.entrypoint.executable)

-- `validate` accepts exactly the complete manifests.
pub validate_iff : (m : PluginManifest) → (validate m ≡ ok tt) ↔ (is_complete m ≡ true)
unfolding validate
validate_iff m =
    rw (is_empty-trim m.plugin.id, is_empty-trim m.plugin.name, is_empty-trim m.plugin.version)
      (λ h. ground arith, λ h. ground arith)

-- Parsing gives complete manifests only, and every complete manifest that the parser reads.
pub from_toml_iff :
    (parse : Text → Result Text PluginManifest) (content : Text) (m : PluginManifest)
    → (from_toml parse content ≡ ok m) ↔ ((parse content ≡ ok m) × (is_complete m ≡ true))
unfolding from_toml
from_toml_iff parse content m =
    (λ h. ground (arith, (validate_iff m).0), λ h. ground (arith, (validate_iff m).1))
