-- ===== src/Router/Admission.antt =====
-- What the firewall and the consent of the user ask of a call.
use ai_garage.Common.{
  ◌≡◌, ◌⊎◌, subst, refl, inl, inr, true, false, none, some, Text, text, lookup, Result, ok, err,
  Bool-cases, Option-cases, Result-cases, arith,
}
use ai_garage.Json.{Json}
use ai_garage.Error.{CoreError, Fault, failed, panic}
use ai_garage.Protocol.JsonRpc.{Response}
use ai_garage.Protocol.Envelope.{InvokeRequest}
use ai_garage.Attenuation.{validate_network, validate_process}
use ai_garage.Attenuation.Sandbox.{validate_path}
use ai_garage.Paths.{FileSystem}
use ai_garage.Router.{
  CapabilityRouter, Plugin, ExecutionMode, interactive, non_interactive_fail,
  non_interactive_auto_approve, refuse_core, refuse_fault, authorized, touches_files, is_write,
  host_only, payload_str, resolve_target, check_authority, check_path, domain_candidate,
  check_network, check_process, firewall, requires_hitl, hitl_request, approved, judge, ask_user,
  consent, admit,
}

module _ (j : Json) (fs : FileSystem) (r : CapabilityRouter) where
  -- All that the firewall asks of a call to the plugin `target`.
  pub record Admitted (caller_id : Text) (q : InvokeRequest j.Value) (target : Text)
      (provider : Plugin) : Type 0 where
    pub routed : lookup q.capability r.capability_map ≡ some target
    pub mounted : lookup target r.plugins ≡ some provider
    pub declared : authorized r caller_id q.capability ≡ true
    pub path_inside :
        (path_val : Text)
        → touches_files q.capability q.method ≡ true
        → payload_str j fs r q (text "path") ≡ some path_val
        → (safe : Text) × (validate_path fs provider.lease r.workspace_root path_val
              (is_write q.method)
              r.policy
            ≡ ok safe)
    pub domain_allowed :
        (d : Text)
        → domain_candidate j fs r q ≡ some d
        → validate_network provider.lease (host_only d) ≡ ok tt
    pub binary_allowed :
        (b : Text)
        → payload_str j fs r q (text "binary") ≡ some b
        → validate_process provider.lease b ≡ ok tt

  refuse_fault_ok :
      {A : Type 0} (m : Result Fault A)
      → refuse_fault {V = j.Value} m ≡ ok tt
      → (a : A) × (m ≡ ok a)
  refuse_fault_ok (ok a) h = (a, refl)
  refuse_fault_ok (err (failed e)) h = cc
  refuse_fault_ok (err panic) h = cc

  refuse_core_ok :
      (m : Result CoreError (Unit {0})) → refuse_core {V = j.Value} m ≡ ok tt → m ≡ ok tt
  refuse_core_ok (ok a) h = refl
  refuse_core_ok (err e) h = cc

  firewall_sound :
      (caller_id : Text) (q : InvokeRequest j.Value) (target : Text) (provider : Plugin)
      → lookup q.capability r.capability_map ≡ some target
      → lookup target r.plugins ≡ some provider
      → firewall j fs r caller_id provider q ≡ ok tt
      → Admitted caller_id q target provider
  unfolding firewall check_authority check_path check_network check_process
  firewall_sound caller_id q target provider a b h = record {
    routed = a;
    mounted = b;
    declared = ground arith;
    path_inside = λ path_val t e. refuse_fault_ok _ (ground arith);
    domain_allowed = λ d e. refuse_core_ok _ (ground arith);
    binary_allowed = λ b e. refuse_core_ok _ (ground arith);
  }

  -- A call that is admitted is routed to a mounted plugin by its capability, comes from a caller that
  -- may make it, and its path, its domain and its binary, where it has them, pass the checks of that
  -- plugin's lease.
  pub admit_sound :
      (caller_id : Text) (q : InvokeRequest j.Value) (target : Text)
      → admit j fs r caller_id q ≡ ok target
      → (provider : Plugin) × Admitted caller_id q target provider
  unfolding admit resolve_target
  admit_sound caller_id q target h = elim (Option-cases (lookup q.capability r.capability_map)) [
    | inl e ↦ absurd (ground arith)
    | inr (id, e) ↦ elim (Option-cases (lookup id r.plugins)) [
      | inl f ↦ absurd (ground arith)
      | inr (provider, f) ↦
          let same : id ≡ target = ground arith in
          (
            provider,
            subst (λ t. Admitted caller_id q t provider) same
                (firewall_sound caller_id q id provider e f (ground arith)),
          )
    ]
  ]

  abbrev pub Answers : Type 0
  Answers = Text → InvokeRequest j.Value → Result CoreError (Response j.Value)

  module _ (answer : Answers) where
    -- Consent is given: none is needed, or the mode grants it, or the plugin that shows prompts is
    -- missing or has answered that the user approves.
    abbrev pub Consented : InvokeRequest j.Value → Type 0
    Consented q =
        (requires_hitl j fs r q ≡ false)
        ⊎ (r.mode ≡ non_interactive_auto_approve)
        ⊎ ((r.mode ≡ interactive) × (r.ui_plugin_id ≡ none))
        ⊎ ((r.mode ≡ interactive)
            × ((ui : Text) × (r.ui_plugin_id ≡ some ui)
                × ((lookup ui r.plugins ≡ none)
                    ⊎ ((resp : Response j.Value) × (answer ui (hitl_request j fs r q) ≡ ok resp)
                        × (approved j fs r resp ≡ true)))))

    pub consent_sound :
        (q : InvokeRequest j.Value) → (consent j fs r answer q).1 ≡ ok tt → Consented q
    unfolding consent ask_user judge
    consent_sound q h = elim (Bool-cases (requires_hitl j fs r q)) [
      | inr e ↦ inl e
      | inl e ↦ by_mode e r.mode refl
    ]
      where
        asked :
            requires_hitl j fs r q ≡ true
            → r.mode ≡ interactive
            → ask_user j fs r answer q ≡ consent j fs r answer q
        asked e m = ground arith

        by_answer :
            (ui : Text)
            → r.mode ≡ interactive
            → r.ui_plugin_id ≡ some ui
            → (plugin : Plugin) → lookup ui r.plugins ≡ some plugin
            → (ask_user j fs r answer q).1 ≡ ok tt
            → (resp : Response j.Value) × (answer ui (hitl_request j fs r q) ≡ ok resp)
              × (approved j fs r resp ≡ true)
        by_answer ui m u plugin p k = elim (Result-cases (answer ui (hitl_request j fs r q))) [
          | inr (x, f) ↦ absurd (ground arith)
          | inl (resp, f) ↦ (resp, f, ground arith)
        ]

        by_mode : requires_hitl j fs r q ≡ true → (m : ExecutionMode) → r.mode ≡ m → Consented q
        by_mode e non_interactive_fail m = absurd (ground arith)
        by_mode e non_interactive_auto_approve m = inr (inl m)
        by_mode e interactive m =
            let k : (ask_user j fs r answer q).1 ≡ ok tt = rw (asked e m) h in
            elim (Option-cases r.ui_plugin_id) [
              | inl u ↦ inr (inr (inl (m, u)))
              | inr (ui, u) ↦ elim (Option-cases (lookup ui r.plugins)) [
                | inl p ↦ inr (inr (inr (m, (ui, u, inl p))))
                | inr (plugin, p) ↦ inr (inr (inr (m, (ui, u, inr (by_answer ui m u plugin p k)))))
              ]
            ]
