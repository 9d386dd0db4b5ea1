-- ===== src/Attenuation/Approval.antt =====
-- Which calls need the consent of a human.
use ai_garage.Common.{
  ◌≡◌, refl, ap, inl, inr, true, false, List, [], ◌∷◌, ◌++◌, Option, some, Text, text_eq,
  text_eq_refl, contains, contains-append, contains-split, to_lowercase, has_upper,
  has_upper-append, has_upper-to_lowercase, any, set_contains, any-of_contains, all, and_true,
  Bool-cases, arith,
}
use ai_garage.Policy.{SecurityPolicy}
use ai_garage.Attenuation.{clean_pattern, is_critical, check_hitl_requirement}

-- A listed action needs consent, whatever the command.
pub listed_action :
    (p : SecurityPolicy) (action : Text) (command : Option Text)
    → set_contains p.human_in_the_loop.require_confirmation_for action ≡ true
    → check_hitl_requirement p action command ≡ true
unfolding check_hitl_requirement
listed_action p action command h =
    let e = any-of_contains (λ r. text_eq r action) _ action h (text_eq_refl action) in
    ground (arith, e)

-- A command with the text of a critical pattern inside needs consent, in any spelling of the
-- command, as long as the pattern has no capital.
pub critical_command :
    (p : SecurityPolicy) (action entry before after : Text) (cmd : Text)
    → set_contains p.human_in_the_loop.critical_command_patterns entry ≡ true
    → to_lowercase cmd ≡ before ++ clean_pattern entry ++ after
    → check_hitl_requirement p action (some cmd) ≡ true
unfolding check_hitl_requirement is_critical
critical_command p action entry before after cmd h e =
    let found =
      any-of_contains (λ s. contains (to_lowercase cmd) (clean_pattern s)) _ entry h
        (rw e (contains-append before (clean_pattern entry) after)) in
    ground (arith, found)

no_capital_inside :
    (s entry : Text) → has_upper s ≡ false → has_upper entry ≡ true → contains s entry ≡ false
no_capital_inside s entry h k = elim (Bool-cases (contains s entry)) [
  | inr e ↦ e
  | inl e ↦
      let (q, r, f) = contains-split s entry e in
      ground (arith, has_upper-append (q ++ entry) r, has_upper-append q entry, ap has_upper f)
]

-- Patterns that all keep a capital when they are cleaned ask for consent to no command: the command
-- is put in lower case before the search, the pattern is not.
pub capital_patterns :
    (p : SecurityPolicy) (cmd : Text)
    → all (λ s. has_upper (clean_pattern s)) p.human_in_the_loop.critical_command_patterns ≡ true
    → is_critical p (some cmd) ≡ false
unfolding is_critical
capital_patterns p cmd h = none_found p.human_in_the_loop.critical_command_patterns h
  where
    none_found :
        (ss : List Text)
        → all (λ s. has_upper (clean_pattern s)) ss ≡ true
        → any (λ s. contains (to_lowercase cmd) (clean_pattern s)) ss ≡ false
    none_found [] k = refl
    none_found (s ∷ ss) k =
        let clean = has_upper-to_lowercase cmd in
        let (k0, k1) = and_true (has_upper (clean_pattern s)) _ k in
        ground
          (arith, no_capital_inside (to_lowercase cmd) (clean_pattern s) clean k0, none_found ss k1)
