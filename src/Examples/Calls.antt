-- ===== src/Examples/Calls.antt =====
-- Calls through the router, requests of plugins and lines of the protocol at concrete inputs.
use ai_garage.Common.{
  map, ℕ, ◌≡◌, ◌⊎◌, ◌↔◌, refl, inl, inr, Bool, true, false, List, [], ◌∷◌, ◌++◌, Option, none, some,
  Text, text, text_eq, any, lookup, Result, ok, err, if◌then◌else◌, arith,
}
use ai_garage.Int.{pos}
use ai_garage.Error.{CoreError}
use ai_garage.Protocol.RpcError
use ai_garage.Protocol.RpcError.{capability_not_found_code}
use ai_garage.Protocol.JsonRpc.{
  number, string, Request, Response, success, error_response, new_request, Message, request,
}
use ai_garage.Protocol.Envelope.{InvokeRequest, method_capability_invoke}
use ai_garage.Protocol.Framing
use ai_garage.Protocol.Framing.{to_ndjson, from_ndjson, version, invalid_version}
use ai_garage.Protocol.Framing.RoundTrip.{
  from_ndjson-to_ndjson, IsJson, Streams, lines_of, received,
}
use ai_garage.Wal
use ai_garage.Wal.{WalWriter, Disk, event_capability_check, event_tool_start, event_tool_end}
use ai_garage.Router.{
  CapabilityRouter, Plugin, interactive, Effect, prompted, invoked, logged, Stop, refuse, admit,
  consent, hitl_request, dispatch, register_plugin, no_provider_message, scheme_end, url_domain,
  host_only,
}
use ai_garage.Router.Admission.{Admitted, admit_sound}
use ai_garage.Router.Firewall.{SoleCall, dispatch_guarded}
use ai_garage.Router.Ordering.{dispatch_order, Ordered}
use ai_garage.Router.Registration.{register_plugin_lem, offers}
use ai_garage.Router.Hosts.{host_of_url}
use ai_garage.Router.Reverse.{
  Rejected, Relayed, Invokes, handle_reverse_request, handle_reverse_request_effects,
}
use ai_garage.Examples.Samples.{
  Value, object, values, field, no_values, sample_policy, sample_manifest, sample_lease,
  searcher_id,
}
use ai_garage.Examples.Samples
use ai_garage.Examples.Sandboxes.{flat_disk}
use ai_garage.Examples.Logs
use ai_garage.Examples.Logs.{sound_disk}

abbrev searcher : Plugin
searcher = record { manifest = sample_manifest; lease = sample_lease }

-- The plugin that is asked shows the prompts too.
abbrev sample_router : CapabilityRouter
sample_router = record {
  plugins = (searcher_id, searcher) ∷ [];
  capability_map = (text "web", searcher_id) ∷ [];
  ui_plugin_id = some searcher_id;
  policy = sample_policy;
  workspace_root = text "/w";
  blob_dir = text "/b";
  mode = interactive;
}

abbrev cli : Text
cli = text "cli"

abbrev url : Text
url = text "https://api.example.com:443/x"

abbrev sample_call : InvokeRequest Value
sample_call = record {
  call_id = text "c1";
  capability = text "web";
  method = text "fetch";
  payload = object (
      field (text "url") (Samples.string url)
        (field (text "binary") (Samples.string (text "git")) no_values));
}

abbrev unknown_call : InvokeRequest Value
unknown_call = record sample_call { capability = text "mail" }

abbrev approval : Response Value
approval =
    success (string (text "c1")) (object (field (text "approved") (Samples.bool true) no_values))

abbrev approving : Text → InvokeRequest Value → Result CoreError (Response Value)
approving plugin_id q = ok approval

abbrev log_codec : Wal.Codec Value
log_codec = record {
  payload_text = λ v. ok (text "payload");
  event_text = λ e. ok (text "event");
  parse_event = λ s. err (text "unread");
  sha256 = λ s. text "0";
}

abbrev full_disk : Disk
full_disk = record sound_disk { write_all = λ s t. (err (text "no space"), s) }

abbrev writer : WalWriter
writer = Logs.empty_writer

sample_admitted : admit values flat_disk sample_router cli sample_call ≡ ok searcher_id
unfolding admit ai_garage.Router.resolve_target lookup text_eq text ai_garage.Router.firewall
    ai_garage.Router.check_authority ai_garage.Router.authorized ai_garage.Router.check_path
    ai_garage.Router.touches_files ai_garage.Common.starts_with ai_garage.Common.contains
    ai_garage.Router.check_network ai_garage.Router.domain_candidate ai_garage.Router.payload_str
    Samples.get_field Samples.of_fields ai_garage.Attenuation.validate_network
    ai_garage.Attenuation.validate_process ai_garage.Common.set_contains ai_garage.Common.lower
    ai_garage.Common.split_on ai_garage.Common.to_lowercase ai_garage.Router.check_process
    ai_garage.Router.first_or host_only ai_garage.Router.second_or ai_garage.Router.split_text
    url_domain
sample_admitted = refl

sample_consented :
    consent values flat_disk sample_router approving sample_call
    ≡ (prompted searcher_id (hitl_request values flat_disk sample_router sample_call) ∷ [], ok tt)
unfolding consent ai_garage.Router.requires_hitl ai_garage.Attenuation.check_hitl_requirement
    text_eq text ai_garage.Router.action_key ai_garage.Router.ask_user lookup ai_garage.Router.judge
    ai_garage.Router.approved success Samples.get_field Samples.of_fields
sample_consented = refl

admit_example :
    (provider : Plugin) × Admitted values flat_disk sample_router cli sample_call searcher_id
      provider
admit_example =
    admit_sound values flat_disk sample_router cli sample_call searcher_id sample_admitted

dispatch_order_example :
    Ordered values flat_disk sample_router approving log_codec sound_disk
      (text "t")
      cli
      sample_call
      writer
      (dispatch values flat_disk sample_router approving log_codec sound_disk
        (text "t")
        cli
        sample_call
        (some writer))
dispatch_order_example =
    dispatch_order values flat_disk sample_router approving log_codec sound_disk (text "t") cli
      sample_call writer

-- The call is made and answered, though nothing can be written to the log.
sample_answered :
    (dispatch values flat_disk sample_router approving log_codec full_disk
      (text "t")
      cli
      sample_call
      (some writer)).0
    ≡ ok approval
unfolding dispatch ai_garage.Router.approve_and_execute ai_garage.Router.execute
    ai_garage.Router.call_plugin
sample_answered = rw (dispatch, sample_admitted, sample_consented) refl

dispatch_guarded_example :
    SoleCall values flat_disk sample_router approving log_codec full_disk
      (text "t")
      cli
      sample_call
      (some writer)
      (dispatch values flat_disk sample_router approving log_codec full_disk
        (text "t")
        cli
        sample_call
        (some writer))
dispatch_guarded_example =
    dispatch_guarded values flat_disk sample_router approving log_codec full_disk (text "t") cli
      sample_call (some writer)

mail_refused :
    admit values flat_disk sample_router cli unknown_call
    ≡ err (refuse (RpcError.new capability_not_found_code (no_provider_message (text "mail"))))
unfolding admit ai_garage.Router.resolve_target lookup text_eq text
mail_refused = refl

register_plugin_example :
    (lookup (text "web") (register_plugin sample_router searcher).capability_map ≡ (
      if offers sample_manifest.capabilities_offered (text "web")
      then some searcher_id
      else lookup (text "web") sample_router.capability_map))
    × (lookup (text "web") (register_plugin sample_router searcher).plugins ≡ (
        if text_eq searcher_id (text "web")
        then some searcher
        else lookup (text "web") sample_router.plugins))
register_plugin_example = register_plugin_lem sample_router searcher (text "web")

-- The host in front of the colon, though a browser would go to evil.com.
host_of_url_example :
    host_only
      (url_domain (text "https" ++ scheme_end ++ (text "api.example.com" ++ text ":x@evil.com/")))
    ≡ text "api.example.com"
unfolding text
host_of_url_example =
    host_of_url (text "https") (text "api.example.com") (text ":x@evil.com/") refl refl refl refl

abbrev decode_call : Value → Result Text (InvokeRequest Value)
decode_call v = ok (record sample_call { call_id = [] })

abbrev sample_request : Request Value
sample_request = new_request (number (pos 7)) method_capability_invoke (some Samples.null)

reverse_effects_example :
    let handled =
      handle_reverse_request values flat_disk sample_router approving log_codec sound_disk
        (text "t")
        decode_call
        searcher_id
        sample_request
        (some writer) in
    Rejected values flat_disk sample_router approving log_codec sound_disk
      (text "t")
      decode_call
      sample_request
      (some writer)
      handled
    ⊎ ((q : InvokeRequest Value) × (sample_request.method ≡ method_capability_invoke)
        × Invokes values flat_disk sample_router approving log_codec sound_disk
            (text "t")
            decode_call
            sample_request
            q
        × (let (result, wal', acts) = handled in
            let (done, wal1, acts1) =
              dispatch values flat_disk sample_router approving log_codec sound_disk
                (text "t")
                searcher_id
                q
                (some writer) in
            Relayed values flat_disk sample_router approving log_codec sound_disk
              (text "t")
              decode_call
              sample_request.id
              done
              result
            × (wal' ≡ wal1)
            × (acts ≡ acts1)))
reverse_effects_example =
    handle_reverse_request_effects values flat_disk sample_router approving log_codec sound_disk
      (text "t") decode_call searcher_id sample_request (some writer)

abbrev unknown_request : Request Value
unknown_request = new_request (number (pos 8)) (text "kernel/exit") none

abbrev unknown_response : Response Value
unknown_response =
    error_response (number (pos 8))
      (RpcError.method_not_found (text "Unknown kernel method '" ++ text "kernel/exit" ++ text "'"))

unknown_answered :
    (handle_reverse_request values flat_disk sample_router approving log_codec sound_disk
      (text "t")
      decode_call
      searcher_id
      unknown_request
      (some writer)).0
    ≡ ok unknown_response
unfolding handle_reverse_request text_eq new_request text
unknown_answered = refl

abbrev old_message : Message Value
old_message = request (record sample_request { jsonrpc = text "1.0" })

abbrev frames : Framing.Codec Value
frames = record { encode = λ m. ok (b'{' ∷ b'}' ∷ []); decode = λ s. ok old_message }

abbrev two_messages : List (Message Value)
two_messages = old_message ∷ old_message ∷ []

two_written : Streams frames two_messages (b'{' ∷ b'}' ∷ 10 ∷ b'{' ∷ b'}' ∷ 10 ∷ [])
unfolding to_ndjson
two_written = (
  b'{' ∷ b'}' ∷ 10 ∷ [],
  b'{' ∷ b'}' ∷ 10 ∷ [],
  refl,
  refl,
  (b'{' ∷ b'}' ∷ 10 ∷ [], [], refl, refl, refl),
)

frame_IsJson : IsJson frames old_message
frame_IsJson json e = (ground arith, ([], ground arith))

from_ndjson_example :
    map (from_ndjson frames) (lines_of (b'{' ∷ b'}' ∷ 10 ∷ b'{' ∷ b'}' ∷ 10 ∷ []))
    ≡ map (received frames) two_messages
from_ndjson_example =
    from_ndjson-to_ndjson frames two_messages (b'{' ∷ b'}' ∷ 10 ∷ b'{' ∷ b'}' ∷ 10 ∷ [])
      (frame_IsJson, (frame_IsJson, tt)) two_written
