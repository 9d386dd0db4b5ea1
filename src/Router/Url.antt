-- ===== src/Router/Url.antt =====
-- crates/chassis-core/src/router.rs: the host of a URL, as the firewall reads it.
use ai_garage.Common.{
  ℕ, zero, suc, ◌-◌, true, false, List, [], ◌∷◌, Text, starts_with, split_on, length,
}

-- `s.split(sep)` for a text `sep`, `skip` characters of a separator still to pass.
unfoldable pub split_text : Text → ℕ → Text → List Text
split_text sep skip [] = [] ∷ []
split_text sep (suc k) (c ∷ s) = split_text sep k s
split_text sep zero (c ∷ s) = elim (starts_with (c ∷ s) sep) [
  | true ↦ [] ∷ split_text sep (length sep - 1) s
  | false ↦ elim (split_text sep zero s) [ [] ↦ [] ∷ [] | p ∷ ps ↦ (c ∷ p) ∷ ps ]
]

-- "://"
abbrev pub scheme_end : Text
scheme_end = b':' ∷ b'/' ∷ b'/' ∷ []

-- `split(..).nth(1).unwrap_or(u)`
unfoldable pub second_or : List Text → Text → Text
second_or (p ∷ q ∷ rest) u = q
second_or _ u = u

-- `split(..).next().unwrap_or(u)`
unfoldable pub first_or : List Text → Text → Text
first_or [] u = u
first_or (p ∷ ps) u = p

unfoldable pub url_domain : Text → Text
url_domain u =
    let without_proto = second_or (split_text scheme_end 0 u) u in
    first_or (split_on b'/' without_proto) without_proto

unfoldable pub host_only : Text → Text
host_only domain_val = first_or (split_on b':' domain_val) domain_val
