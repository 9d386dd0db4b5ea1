-- ===== src/Supervisor/Handshake.antt =====
-- When a plugin is started, and what becomes of it.
use ai_garage.Common.{
  text, lookup, Option-cases, ℕ, ◌≡◌, ◌⊎◌, inl, inr, refl, sym, ◌∙◌, subst, true, [], ◌∷◌, ◌++◌,
  Option, none, some, Text, Dict, Result, ok, err, Bool-cases, Result-cases, arith,
}
use ai_garage.Json.{Json}
use ai_garage.Error.{CoreError}
use ai_garage.Protocol.JsonRpc.{Response}
use ai_garage.Protocol.Lifecycle.{
  method_kernel_handshake, method_kernel_handshake_ack, HandshakeParams, PluginAnnounceResult,
  HandshakeAckParams,
}
use ai_garage.Manifest.{PluginManifest}
use ai_garage.Policy.{SecurityPolicy}
use ai_garage.Attenuation.{EffectiveLease, enabled_of, compute, resolve_secrets}
use ai_garage.Process.Spawning.{Host, Command, prepare}
use ai_garage.Supervisor.{
  spawned, requested, notified, killed, PluginIo, Converter, PluginSupervisor, Acts, lease_of,
  check_response, accept, greet, acknowledge, then_do, negotiate, settle, start_prepared,
  launch_and_handshake_full,
}

module _ (j : Json) (conv : Converter j.Value) (plugin : PluginIo j.Value) (timeout : Text) where
  -- The handshake of a session was put as `v`, and the plugin answered it in time, without an error
  -- and with an announcement that could be read.
  abbrev pub Greeted : Text → Text → j.Value → Type 0
  Greeted id sid v =
      (response : Response j.Value) × (announced : j.Value) × (announcement : PluginAnnounceResult
        j.Value)
      × (conv.handshake_value (record {
        protocol_version = text "1.0.0";
        kernel_version = text "0.1.0";
        session_id = sid;
        assigned_plugin_id = id;
      })
          ≡ ok v)
      × (plugin.ask method_kernel_handshake v ≡ some (ok response))
      × (response.error ≡ none)
      × (response.result ≡ some announced)
      × (conv.announced announced ≡ ok announcement)

  -- The acknowledgement was put as `w`, and it reached the plugin.
  abbrev pub Acknowledged : Text → Text → j.Value → Type 0
  Acknowledged id workspace_root w =
      (conv.ack_value (record {
        status = text "mounted";
        lease_token = text "lease_" ++ id;
        workspace_root = workspace_root;
        sandbox_restrictions = none;
      })
        ≡ ok w)
      × (plugin.tell method_kernel_handshake_ack w ≡ ok tt)

  check_response-ok :
      (id : Text) (response : Response j.Value)
      → check_response j conv id response ≡ ok tt
      → (v : j.Value) × (a : PluginAnnounceResult j.Value) × (response.error ≡ none)
        × (response.result ≡ some v)
        × (conv.announced v ≡ ok a)
  unfolding check_response
  check_response-ok id response h = elim (Option-cases response.error) [
    | inr (e, f) ↦ ground (arith, f)
    | inl f ↦ elim (Option-cases response.result) [
      | inl g ↦ ground (arith, f, g)
      | inr (v, g) ↦ elim (Result-cases (conv.announced v)) [
        | inr (e, k) ↦ ground (arith, f, g, k)
        | inl (a, k) ↦ (v, a, f, g, k)
      ]
    ]
  ]

  accept-ok :
      (id : Text) (answer : Option (Result CoreError (Response j.Value)))
      → accept j conv plugin timeout id answer ≡ ok tt
      → (response : Response j.Value) × (answer ≡ some (ok response))
        × (check_response j conv id response ≡ ok tt)
  unfolding accept
  accept-ok id none h = ground arith
  accept-ok id (some (err e)) h = ground arith
  accept-ok id (some (ok response)) h = (response, refl, h)

  greet-ok :
      (id : Text) (params : HandshakeParams)
      → (greet j conv plugin timeout id params).0 ≡ ok tt
      → (v : j.Value) × (response : Response j.Value) × ((greet j conv plugin timeout id params).1
          ≡ requested method_kernel_handshake v ∷ [])
        × (conv.handshake_value params ≡ ok v)
        × (plugin.ask method_kernel_handshake v ≡ some (ok response))
        × (check_response j conv id response ≡ ok tt)
  unfolding greet
  greet-ok id params h = elim (Result-cases (conv.handshake_value params)) [
    | inr (e, f) ↦ ground (arith, f)
    | inl (v, f) ↦
        let (response, asked, checked) = accept-ok id _ (ground (arith, f)) in
        (v, response, rw (greet, f) refl, f, asked, checked)
  ]

  acknowledge-ok :
      (params : HandshakeAckParams j.Value)
      → (acknowledge j conv plugin timeout params).0 ≡ ok tt
      → (w : j.Value) × ((acknowledge j conv plugin timeout params).1
          ≡ notified method_kernel_handshake_ack w ∷ [])
        × (conv.ack_value params ≡ ok w)
        × (plugin.tell method_kernel_handshake_ack w ≡ ok tt)
  unfolding acknowledge
  acknowledge-ok params h = elim (Result-cases (conv.ack_value params)) [
    | inr (e, f) ↦ ground (arith, f)
    | inl (w, f) ↦ (w, rw (acknowledge, f) refl, f, ground (arith, f))
  ]

  then_do-ok :
      (x y : Result CoreError (Unit {0}) × Acts j conv)
      → (then_do j conv plugin timeout x y).0 ≡ ok tt
      → (x.0 ≡ ok tt) × (y.0 ≡ ok tt) × ((then_do j conv plugin timeout x y).1 ≡ x.1 ++ y.1)
  unfolding then_do
  then_do-ok (ok u, done) (r, more) h = (refl, h, refl)
  then_do-ok (err e, done) y h = ground arith

  -- The two messages of a handshake that went well.
  abbrev pub Shaken : Text → Text → Text → Acts j conv → Type 0
  Shaken id workspace_root sid done =
      (v : j.Value) × (w : j.Value) × (done
        ≡ requested method_kernel_handshake v ∷ notified method_kernel_handshake_ack w ∷ [])
      × Greeted id sid v
      × Acknowledged id workspace_root w

  negotiate-ok :
      (manifest : PluginManifest) (workspace_root sid : Text)
      → (negotiate j conv plugin timeout manifest workspace_root sid).0 ≡ ok tt
      → Shaken manifest.plugin.id workspace_root sid
          (negotiate j conv plugin timeout manifest workspace_root sid).1
  unfolding negotiate
  negotiate-ok manifest workspace_root sid h =
      let (g, a, e) = then_do-ok _ _ h in
      let (v, response, f, put, asked, checked) = greet-ok _ _ g in
      let (w, k, acked, told) = acknowledge-ok _ a in
      let (announced, announcement, clean, result, read) = check_response-ok _ response checked in
      (
        v,
        w,
        e ∙ rw (f, k) refl,
        (response, announced, announcement, put, asked, clean, result, read),
        (acked, told),
      )

  -- What a launch comes to once the process runs: it is mounted, or it is killed at the end.
  abbrev pub Mounted :
      PluginManifest
      → EffectiveLease
      → Text
      → Text
      → Result CoreError PluginSupervisor × Acts j conv
      → Type 0
  Mounted manifest lease workspace_root sid (res, done) =
      ((s : PluginSupervisor) × (res ≡ ok s)
        × (s.manifest ≡ manifest)
        × (s.lease ≡ lease)
        × (s.session_id ≡ sid)
        × Shaken manifest.plugin.id workspace_root sid done)
      ⊎ ((e : CoreError) × (before : Acts j conv) × (res ≡ err e) × (done ≡ before ++ killed ∷ []))

  settle-Mounted :
      (manifest : PluginManifest) (lease : EffectiveLease) (workspace_root sid : Text)
      (pid : Option ℕ) (n : Result CoreError (Unit {0}) × Acts j conv)
      → (n.0 ≡ ok tt → Shaken manifest.plugin.id workspace_root sid n.1)
      → Mounted manifest lease workspace_root sid
          (settle j conv plugin timeout manifest lease sid pid n)
  unfolding settle
  settle-Mounted manifest lease workspace_root sid pid (err e, done) f = inr (e, done, refl, refl)
  settle-Mounted manifest lease workspace_root sid pid (ok u, done) f =
      inl (_, refl, refl, refl, refl, f refl)

  -- A launch that starts nothing: an error, and nothing done.
  abbrev pub Refused : Result CoreError PluginSupervisor × Acts j conv → Type 0
  Refused (res, done) = (e : CoreError) × (res ≡ err e) × (done ≡ [])

  -- A launch that starts the command, and what comes after.
  abbrev pub Started :
      PluginManifest
      → EffectiveLease
      → Text
      → Text
      → Command
      → Result CoreError PluginSupervisor × Acts j conv
      → Type 0
  Started manifest lease workspace_root sid cmd (res, done) =
      (after : Acts j conv) × (done ≡ spawned cmd ∷ after)
      × Mounted manifest lease workspace_root sid (res, after)

  start_prepared-Started :
      (manifest : PluginManifest) (lease : EffectiveLease) (workspace_root sid : Text)
      (cmd : Command)
      → Refused (start_prepared j conv plugin timeout manifest lease workspace_root sid (ok cmd))
        ⊎ Started manifest lease workspace_root sid cmd
            (start_prepared j conv plugin timeout manifest lease workspace_root sid (ok cmd))
  unfolding start_prepared
  start_prepared-Started manifest lease workspace_root sid cmd =
      elim (Result-cases (plugin.start cmd)) [
        | inr (e, f) ↦ rw (start_prepared, f) (inl (_, refl, refl))
        | inl (pid, f) ↦
            rw (start_prepared, f)
              (inr (
                _,
                refl,
                settle-Mounted manifest lease workspace_root sid pid
                    (negotiate j conv plugin timeout manifest workspace_root sid)
                    (negotiate-ok manifest workspace_root sid),
              ))
      ]

  module _ (host : Host) (manifest : PluginManifest) (policy : SecurityPolicy)
      (workspace_root plugin_dir sid : Text) (vault : Option (Dict Text)) where
    -- Nothing is started, or only what the lease allows.
    abbrev pub Guarded : Result CoreError PluginSupervisor × Acts j conv → Type 0
    Guarded launch =
        let lease = lease_of manifest policy vault in
        Refused launch
        ⊎ ((cmd : Command) × (enabled_of (lookup manifest.plugin.id policy.plugins) ≡ true)
            × (prepare host manifest lease workspace_root plugin_dir ≡ ok cmd)
            × Started manifest lease workspace_root sid cmd launch)

    lease-enabled :
        (lease_of manifest policy vault).enabled
        ≡ enabled_of (lookup manifest.plugin.id policy.plugins)
    unfolding lease_of compute resolve_secrets
    lease-enabled = elim vault [ none ↦ ground arith | some secrets ↦ ground arith ]

    launch-started :
        (r : Result CoreError Command)
        → (lease_of manifest policy vault).enabled ≡ true
        → prepare host manifest (lease_of manifest policy vault) workspace_root plugin_dir ≡ r
        → launch_and_handshake_full j conv plugin timeout host manifest policy workspace_root
            plugin_dir sid vault
          ≡ start_prepared j conv plugin timeout manifest
              (lease_of manifest policy vault)
              workspace_root
              sid
              r
    unfolding launch_and_handshake_full
    launch-started r e f = rw (launch_and_handshake_full, e, f) refl

    -- A launch starts a process only for a plugin that the policy does not disable, as the command that
    -- was prepared with the lease of the policy; otherwise nothing is done. A process that was started
    -- is mounted, with this lease, or it is killed and the launch fails. It is mounted only if it has
    -- answered the handshake of the session in time, without an error and with an announcement that
    -- can be read, and if the acknowledgement has then reached it; nothing else is sent.
    pub launch-Guarded : Guarded (
        launch_and_handshake_full j conv plugin timeout host manifest policy workspace_root
          plugin_dir sid vault)
    unfolding launch_and_handshake_full start_prepared
    launch-Guarded =
        let lease = lease_of manifest policy vault in
        elim (Bool-cases lease.enabled) [
          | inr e ↦ rw (launch_and_handshake_full, e) (inl (_, refl, refl))
          | inl e ↦ elim (Result-cases (prepare host manifest lease workspace_root plugin_dir)) [
            | inr (x, f) ↦ subst Guarded (sym (launch-started (err x) e f)) (inl (x, refl, refl))
            | inl (cmd, f) ↦
                subst Guarded (sym (launch-started (ok cmd) e f))
                  (elim (start_prepared-Started manifest lease workspace_root sid cmd) [
                    | inl refused ↦ inl refused
                    | inr started ↦ inr (cmd, sym lease-enabled ∙ e, f, started)
                  ])
          ]
        ]
