-- ===== src/Subagent/Authority.antt =====
-- What authority a subagent may be given.
use ai_garage.Common.{
  ◌≡◌, ◌↔◌, ◌⊎◌, inl, inr, refl, sym, ◌∙◌, Bool, true, not, ◌&&◌, ◌||◌, List, [], ◌∷◌, Text, text,
  text_eq, set_contains, set_insert, set_contains-insert, all, any, ok, err, Bool-cases, arith,
}
use ai_garage.Error.{policy_violation}
use ai_garage.Attenuation.{EffectiveLease}
use ai_garage.Subagent.{
  validate_attenuation, escalation_message, binary_capability, with_binaries, insert_if, none_of,
  capabilities_of,
}

-- The authority that a capability stands for, as the parent's lease has it.
abbrev pub grants : EffectiveLease → Text → Bool
grants lease cap =
    (text_eq (text "tools.execute:file_read") cap && lease.allow_filesystem_read)
    || (text_eq (text "tools.execute:list_dir") cap && lease.allow_filesystem_read)
    || (text_eq (text "tools.execute:file_write") cap && lease.allow_filesystem_write)
    || any (λ bin. text_eq (binary_capability bin) cap) lease.allowed_binaries
    || (text_eq (text "network:outbound") cap && not (none_of lease.allowed_domains))

set_contains-with_binaries :
    (bins caps : List Text) (cap : Text)
    → set_contains (with_binaries bins caps) cap
      ≡ (any (λ bin. text_eq (binary_capability bin) cap) bins || set_contains caps cap)
unfolding with_binaries
set_contains-with_binaries [] caps cap = refl
set_contains-with_binaries (bin ∷ bins) caps cap = ground (
  arith,
  set_contains-with_binaries bins (set_insert (binary_capability bin) caps) cap,
  set_contains-insert (binary_capability bin) cap caps,
)

set_contains-insert_if :
    (b : Bool) (x cap : Text) (caps : List Text)
    → set_contains (insert_if b x caps) cap ≡ ((text_eq x cap && b) || set_contains caps cap)
unfolding insert_if
set_contains-insert_if b x cap caps = ground (arith, set_contains-insert x cap caps)

-- The capabilities of the parent are those that its lease grants, and no others.
capabilities_of-grants :
    (lease : EffectiveLease) (cap : Text)
    → set_contains (capabilities_of lease) cap ≡ grants lease cap
unfolding capabilities_of set_contains
capabilities_of-grants lease cap =
    let r = lease.allow_filesystem_read in
    let first = insert_if r (text "tools.execute:file_read") [] in
    let reading = insert_if r (text "tools.execute:list_dir") first in
    let writing =
      insert_if lease.allow_filesystem_write (text "tools.execute:file_write") reading in
    let running = with_binaries lease.allowed_binaries writing in
    ground (
      arith,
      set_contains-insert_if (not (none_of lease.allowed_domains)) (text "network:outbound") cap
          running,
      set_contains-with_binaries lease.allowed_binaries writing cap,
      set_contains-insert_if lease.allow_filesystem_write (text "tools.execute:file_write") cap
          reading,
      set_contains-insert_if r (text "tools.execute:list_dir") cap first,
      set_contains-insert_if r (text "tools.execute:file_read") cap [],
    )

all-ext : (f g : Text → Bool) (xs : List Text) → ((x : Text) → f x ≡ g x) → all f xs ≡ all g xs
all-ext f g [] h = refl
all-ext f g (x ∷ xs) h = rw (h x, all-ext f g xs h) refl

validate_attenuation_iff :
    (debug : List Text → Text) (caps requested : List Text)
    → (validate_attenuation debug caps requested ≡ ok tt)
      ↔ (all (set_contains caps) requested ≡ true)
unfolding validate_attenuation
validate_attenuation_iff debug caps [] = (λ h. refl, λ h. refl)
validate_attenuation_iff debug caps (cap ∷ rest) =
    ground (arith, validate_attenuation_iff debug caps rest)

refusal :
    (debug : List Text → Text) (caps requested : List Text)
    → (validate_attenuation debug caps requested ≡ ok tt)
      ⊎ ((m : Text) × (validate_attenuation debug caps requested ≡ err (policy_violation m)))
unfolding validate_attenuation
refusal debug caps [] = inl refl
refusal debug caps (cap ∷ rest) = elim (Bool-cases (set_contains caps cap)) [
  | inr e ↦ inr (escalation_message debug cap caps, rw (validate_attenuation, e) refl)
  | inl e ↦ rw (validate_attenuation, e) (refusal debug caps rest)
]

-- A request passes if the lease grants all of it, and is a policy violation otherwise.
pub validate_attenuation-cases :
    (debug : List Text → Text) (lease : EffectiveLease) (requested : List Text)
    → ((validate_attenuation debug (capabilities_of lease) requested ≡ ok tt)
        × (all (grants lease) requested ≡ true))
      ⊎ ((m : Text) × (validate_attenuation debug (capabilities_of lease) requested
            ≡ err (policy_violation m)))
validate_attenuation-cases debug lease requested =
    elim (refusal debug (capabilities_of lease) requested) [
      | inl e ↦ inl (
        e,
        sym (
              all-ext (set_contains (capabilities_of lease)) (grants lease) requested
                (capabilities_of-grants lease))
            ∙ (validate_attenuation_iff debug (capabilities_of lease) requested).0 e,
      )
      | inr (m, e) ↦ inr (m, e)
    ]
