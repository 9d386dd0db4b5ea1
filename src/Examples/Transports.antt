-- ===== src/Examples/Transports.antt =====
-- A transport and a saved vault at concrete inputs.
use ai_garage.Common.{
  not, ◌&&◌, ◌||◌, any, text_eq, lookup, Dict, ℕ, ◌+◌, ◌≤◌, ◌≡◌, ◌↔◌, refl, Bool, true, false, ltb,
  List, [], ◌∷◌, ◌++◌, Option, none, some, Text, text, trim, Result, ok, err, if◌then◌else◌, arith,
  trim_start, trim_end, is_whitespace,
}
use ai_garage.Int.{pos}
use ai_garage.Protocol.JsonRpc.{
  RequestId, id_eq, Request, request, new_request, number, Response, response, success,
}
use ai_garage.Protocol.Framing
use ai_garage.Protocol.Framing.{from_ndjson}
use ai_garage.Process.{
  find, Mux, new_mux, signed, Event, called, line_read, input_ended, step, run, send_request, put,
  take_out,
}
use ai_garage.Process.Waiters.{count_answers, run-answers, late_request_waits, response_delivered}
use ai_garage.Process.Teardown.{
  ProcEntry, read_processes, shutdown, hits_group, hits_process, shutdown_lem,
}
use ai_garage.Process.Tree.{mem, collect_descendants}
use ai_garage.Process.Tree.Closure.{Descendant, collect_descendants_iff}
use ai_garage.Blob.{hash_prefix, store, read}
use ai_garage.Blob.Addressing.{read-store}
use ai_garage.Paths.{join}
use ai_garage.Protocol.Envelope.{BlobRef}
use ai_garage.Vault.{EncryptedVault, Cipher, Format, Saving, to_hex, save_to_file, load_from_file}
use ai_garage.Vault.Hex.{are_bytes}
use ai_garage.Vault.Reloading.{load-save, Opens, ReadsBack}
use ai_garage.Examples.Samples.{values}

abbrev pong : Response Text
pong = success (number (pos 1)) (text "pong")

-- Every line is the answer to the first request.
abbrev pongs : Framing.Codec Text
pongs = record { encode = λ m. err (text "unused"); decode = λ s. ok (response pong) }

abbrev ping : Event Text
ping = called true (text "kernel/ping") none

abbrev searcher : Text
searcher = text "searcher"

abbrev twice : List (Event Text)
twice = ping ∷ line_read (text "{}") ∷ line_read (text "{}") ∷ []

run-answers_example :
    let s = run pongs false twice (new_mux searcher) in
    count_answers 0 s.answered ≤ (if ltb 0 s.made then 1 else 0)
run-answers_example = run-answers pongs false twice searcher 0

abbrev pinged : Mux Text
pinged = step pongs false ping (new_mux searcher)

pinged_open : pinged.ended ≡ false
unfolding step send_request ai_garage.Process.waiting new_mux
pinged_open = refl

crashed : (run pongs false (input_ended ∷ []) (new_mux searcher)).ended ≡ true
unfolding run step new_mux ai_garage.Process.drain
crashed = refl

late_request_example :
    let s = run pongs false (input_ended ∷ []) (new_mux searcher) in
    let made = send_request true (text "kernel/ping") none s in
    (made.0 ≡ ok s.made)
    × (count_answers s.made (run pongs false (line_read (text "{}") ∷ []) made.1).answered ≡ 0)
late_request_example =
    late_request_waits pongs false (input_ended ∷ []) (line_read (text "{}") ∷ []) searcher
      (text "kernel/ping") none crashed

new_open : (new_mux {V = Text} searcher).ended ≡ false
unfolding new_mux
new_open = refl

pong_read : from_ndjson pongs (trim (text "{}")) ≡ ok (response pong)
unfolding from_ndjson trim_end trim_start text is_whitespace ai_garage.Common.text_eq success
pong_read = refl

abbrev ping_request : Request Text
ping_request = new_request (number (pos 1)) (text "kernel/ping") none

ping_sent :
    (send_request true (text "kernel/ping") none (new_mux searcher)).1.sent
    ≡ (new_mux {V = Text} searcher).sent ++ request ping_request ∷ []
unfolding send_request new_mux signed
ping_sent = refl

pong_answers : pong.id ≡ ping_request.id
unfolding new_request success
pong_answers = refl

response_delivered_example :
    let (waiter, s') = send_request true (text "kernel/ping") none (new_mux searcher) in
    let after = step pongs false (line_read (text "{}")) s' in
    (ping_request.method ≡ text "kernel/ping")
    × (ping_request.params ≡ none)
    × ((w : ℕ) × (waiter ≡ ok w)
        × (after.answered ≡ (w, pong) ∷ (new_mux {V = Text} searcher).answered))
    × (find ping_request.id after.pending ≡ none)
    × ((i : RequestId)
        → id_eq ping_request.id i ≡ false
        → find i after.pending ≡ find i (new_mux {V = Text} searcher).pending)
response_delivered_example =
    response_delivered pongs false (new_mux searcher) (text "kernel/ping") (text "{}") none
      ping_request pong ping_sent new_open pong_read pong_answers

-- A cipher that leaves the text in place.
abbrev clear_cipher : Cipher
clear_cipher = record {
  derive_key = λ p s. s;
  key_accepted = λ key. true;
  nonce_accepted = λ nonce. true;
  seal = λ key nonce plain. if are_bytes plain then some plain else none;
  open_sealed = λ key nonce sealed. some sealed;
}

abbrev one_secret : EncryptedVault
one_secret = record { secrets = (text "KEY", text "value") ∷ [] }

abbrev salt : List ℕ
salt = 0 ∷ 1 ∷ 2 ∷ 3 ∷ 4 ∷ 5 ∷ 6 ∷ 7 ∷ 8 ∷ 9 ∷ 10 ∷ 11 ∷ 12 ∷ 13 ∷ 14 ∷ 15 ∷ []

abbrev nonce : List ℕ
nonce = 0 ∷ 1 ∷ 2 ∷ 3 ∷ 4 ∷ 5 ∷ 6 ∷ 7 ∷ 8 ∷ 9 ∷ 10 ∷ 11 ∷ []

-- A container is written as the text of what is sealed.
abbrev one_format : Format
one_format = record {
  secrets_bytes = λ m. ok (65 ∷ []);
  parse_secrets = λ bs. ok one_secret.secrets;
  container_text = λ c. ok c.ciphertext_hex;
  parse_container = λ s. ok (record {
    version = text "1.0.0";
    salt_hex = to_hex salt;
    nonce_hex = to_hex nonce;
    ciphertext_hex = s;
  });
}

abbrev saving : Saving
saving = record {
  salt = some salt;
  nonce = some nonce;
  create_dir_all = ok tt;
  write = ok tt;
  set_permissions = ok tt;
}

clear-Opens : Opens clear_cipher salt nonce
clear-Opens plain sealed h = (ground arith, ground arith)

one-ReadsBack : ReadsBack one_format one_secret salt nonce
one-ReadsBack = (λ plain e. refl, λ sealed content e. ground arith)

abbrev saved : Text
saved = to_hex (65 ∷ [])

vault_saved : save_to_file clear_cipher one_format saving one_secret (text "pass") ≡ ok saved
unfolding save_to_file
vault_saved = refl

load-save_example :
    load_from_file clear_cipher one_format (text "/v") (some (ok saved)) (text "pass")
    ≡ ok one_secret
load-save_example =
    load-save clear_cipher one_format saving one_secret (text "/v") (text "pass") saved salt nonce
      refl refl (refl, refl) (refl, refl) clear-Opens one-ReadsBack vault_saved

-- Process 3 is a child of 2, which is a child of 1; 4 and 5 are each other's parents.
abbrev processes : List (ℕ × ℕ)
processes = (3, 2) ∷ (2, 1) ∷ (4, 5) ∷ (5, 4) ∷ []

collect_descendants_example :
    (mem 3 (collect_descendants processes 1) ≡ true) ↔ Descendant processes 1 3
collect_descendants_example = collect_descendants_iff processes 1 3

-- A digest that is the content itself.
abbrev plain_digest : List ℕ → Text
plain_digest bytes = bytes

abbrev stored : BlobRef
stored = record {
  blob = hash_prefix ++ b'a' ∷ b'b' ∷ [];
  mime_type = text "text/plain";
  byte_length = 2;
}

blob_stored :
    (store plain_digest (text "/b") (ok tt) [] (b'a' ∷ b'b' ∷ []) (text "text/plain")).0 ≡ ok stored
unfolding store
blob_stored = refl

read-store_example :
    let files' =
      (store plain_digest (text "/b") (ok tt) [] (b'a' ∷ b'b' ∷ []) (text "text/plain")).1 in
    (read plain_digest (text "/b") (ok tt) files' stored ≡ ok (b'a' ∷ b'b' ∷ []))
    × ((p : Text)
        → text_eq (join (text "/b") (b'a' ∷ b'b' ∷ [])) p ≡ false
        → lookup p files' ≡ lookup p [])
read-store_example =
    read-store plain_digest (text "/b") (ok tt) [] (b'a' ∷ b'b' ∷ []) (text "text/plain") stored
      blob_stored

-- A child of process 7 with a bracket in its name, a child of that, and a file that is no process.
abbrev proc_files : Option (List ProcEntry)
proc_files = some (
    record { name = some (text "8"); stat = some (text "8 (a) b) S 7 0") }
    ∷ record { name = some (text "self"); stat = none }
    ∷ record { name = some (text "9"); stat = some (text "9 (c) S 8 0") }
    ∷ [])

abbrev root_pid : ℕ
root_pid = 7

abbrev grandchild : ℕ
grandchild = 9

shutdown_example :
    let (r, acts, s') =
      shutdown values proc_files (some root_pid) 500 true true false (new_mux searcher) in
    let left = (not true || true) && false in
    (r ≡ ok tt)
    × ((any (hits_group grandchild) acts ≡ true) ↔ ((left ≡ false) × (root_pid ≡ grandchild)))
    × ((any (hits_process grandchild) acts ≡ true)
        ↔ ((left ≡ false) × Descendant (read_processes proc_files) root_pid grandchild))
shutdown_example =
    shutdown_lem values proc_files root_pid 500 true true false (new_mux searcher) grandchild
