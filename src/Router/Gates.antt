-- ===== src/Router/Gates.antt =====
-- crates/chassis-core/src/router.rs: the target of a call and the firewall, sections 1 to 2 of
-- `dispatch`. The JSON interface and the file system are parameters.
use ai_garage.Common.{
  Bool, true, ◌||◌, [], ◌∷◌, ◌++◌, Option, none, some, Text, text, text_eq, starts_with, contains,
  any, lookup, Result, ok, err, ◌>>◌, if◌then◌else◌, require,
}
use ai_garage.Json.{Json}
use ai_garage.Error.{CoreError, Fault, failed, panic, policy_violation, to_rpc}
use ai_garage.Protocol.RpcError
use ai_garage.Protocol.RpcError.{RpcError, capability_not_found_code, user_rejected_code}
use ai_garage.Protocol.Envelope.{InvokeRequest}
use ai_garage.Attenuation.{EffectiveLease, validate_network, validate_process}
use ai_garage.Attenuation.Sandbox.{validate_path}
use ai_garage.Paths.{FileSystem}
use ai_garage.Router.State.{CapabilityRouter, Plugin}
use ai_garage.Router.Url.{url_domain, host_only}

-- Why a dispatch ends early: with an error response, or with a fault.
pub data Stop (V : Type 0) : Type 0 where
  refuse : RpcError V → Stop V
  fault : Fault → Stop V

-- A check of the core whose error becomes the response.
abbrev pub refuse_core {ℓ} :
    {V : Type 0} {A : Type ℓ} → Result CoreError A → Result (Stop V) (Unit {0})
refuse_core (ok a) = ok tt
refuse_core (err e) = err (refuse (to_rpc e))

abbrev pub refuse_fault {ℓ} :
    {V : Type 0} {A : Type ℓ} → Result Fault A → Result (Stop V) (Unit {0})
refuse_fault (ok a) = ok tt
refuse_fault (err (failed e)) = err (refuse (to_rpc e))
refuse_fault (err panic) = err (fault panic)

unfoldable pub no_provider_message : Text → Text
no_provider_message capability =
    text "No active plugin provides capability '" ++ capability ++ text "'"

unfoldable pub undeclared_message : Text → Text → Text
undeclared_message caller_id capability =
    text "Plugin '"
    ++ caller_id
    ++ text "' attempted to invoke capability '"
    ++ capability
    ++ text "' without declaring it in [[capabilities_required]]"

-- A kernel caller, no registered plugin, or one that declares the capability.
unfoldable pub authorized : CapabilityRouter → Text → Text → Bool
authorized r caller_id capability =
    text_eq caller_id (text "cli")
    || text_eq caller_id (text "agent_core")
    || elim (lookup caller_id r.plugins) [
      | none ↦ true
      | some caller ↦ any (λ q. text_eq q.id capability) caller.manifest.capabilities_required
    ]

unfoldable pub touches_files : Text → Text → Bool
touches_files capability method =
    starts_with capability (text "tools.")
    || contains method (text "file_")
    || contains method (text "dir")

unfoldable pub is_write : Text → Bool
is_write method =
    contains method (text "write")
    || contains method (text "create")
    || contains method (text "delete")

unfoldable pub action_key : Text → Text → Text
action_key capability method = capability ++ b':' ∷ [] ++ method

module _ (j : Json) (fs : FileSystem) (r : CapabilityRouter) where
  abbrev Req : Type 0
  Req = InvokeRequest j.Value

  -- `request.payload.get(key).and_then(|v| v.as_str())`
  unfoldable pub payload_str : Req → Text → Option Text
  payload_str q key = elim (j.get q.payload key) [ none ↦ none | some v ↦ j.as_str v ]

  unfoldable pub resolve_target : Req → Result (Stop j.Value) (Text × Plugin)
  resolve_target q = elim (lookup q.capability r.capability_map) [
    | none ↦
        err (refuse (RpcError.new capability_not_found_code (no_provider_message q.capability)))
    | some id ↦ elim (lookup id r.plugins) [
      | none ↦
          err
            (fault (failed (policy_violation (text "Target plugin '" ++ id ++ text "' not found"))))
      | some provider ↦ ok (id, provider)
    ]
  ]

  unfoldable pub check_authority : Text → Req → Result (Stop j.Value) (Unit {0})
  check_authority caller_id q =
      require (authorized r caller_id q.capability) (
        refuse (RpcError.new capability_not_found_code (undeclared_message caller_id q.capability)))

  unfoldable pub check_path : EffectiveLease → Req → Result (Stop j.Value) (Unit {0})
  check_path lease q =
      if touches_files q.capability q.method
      then elim (payload_str q (text "path")) [
        | none ↦ ok tt
        | some path_val ↦
            refuse_fault
              (validate_path fs lease r.workspace_root path_val (is_write q.method) r.policy)
      ]
      else ok tt

  unfoldable pub domain_candidate : Req → Option Text
  domain_candidate q = elim (payload_str q (text "domain")) [
    | some d ↦ some d
    | none ↦ elim (payload_str q (text "url")) [ none ↦ none | some u ↦ some (url_domain u) ]
  ]

  unfoldable pub check_network : EffectiveLease → Req → Result (Stop j.Value) (Unit {0})
  check_network lease q = elim (domain_candidate q) [
    | none ↦ ok tt
    | some d ↦ refuse_core (validate_network lease (host_only d))
  ]

  unfoldable pub check_process : EffectiveLease → Req → Result (Stop j.Value) (Unit {0})
  check_process lease q = elim (payload_str q (text "binary")) [
    | none ↦ ok tt
    | some b ↦ refuse_core (validate_process lease b)
  ]

  -- Sections 1b and 2 of the dispatch.
  unfoldable pub firewall : Text → Plugin → Req → Result (Stop j.Value) (Unit {0})
  firewall caller_id provider q = do
    check_authority caller_id q
    check_path provider.lease q
    check_network provider.lease q
    check_process provider.lease q
