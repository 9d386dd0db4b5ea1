-- ===== src/Examples/Searches.antt =====
-- Searches, messages and files with a known hash at concrete inputs.
use ai_garage.Common.{
  ℕ, ◌<◌, ◌≡◌, ◌↔◌, inl, inr, refl, List, [], ◌∷◌, ◌++◌, some, Text, text, text_eq, trim, All, utf8,
  Result, ok, err, if◌then◌else◌, arith,
}
use ai_garage.Router.{url_domain, host_only}
use ai_garage.Lockfile.{verify_file_hash, verify_file_hash_iff}
use ai_garage.Plugins.WebSearch.{Http, urlencoding, execute_search}
use ai_garage.Plugins.WebSearch.Decoding.{form_decode, form_decode-urlencoding}
use ai_garage.Plugins.WebSearch.Hosts.{execute_search_hosts, IsService}
use ai_garage.Plugins.Storage.{insert_vec_sql}
use ai_garage.Plugins.Storage.Memory.{insert_vec_sql-ambiguous}
use ai_garage.Examples.Samples.{Value, values}

encodable : All (λ c. c < 1114112) (b'a' ∷ b' ' ∷ b'&' ∷ 233 ∷ [])
encodable = (omega arith, (omega arith, (omega arith, (omega arith, tt))))

form_decode-urlencoding_example :
    form_decode (urlencoding (b'a' ∷ b' ' ∷ b'&' ∷ 233 ∷ []))
    ≡ some (utf8 (b'a' ∷ b' ' ∷ b'&' ∷ 233 ∷ []))
form_decode-urlencoding_example = form_decode-urlencoding (b'a' ∷ b' ' ∷ b'&' ∷ 233 ∷ []) encodable

-- Two networks where nothing answers, each with its own error.
abbrev silent : Http Value
silent u = err (text "timeout")

abbrev refusing : Http Value
refusing u =
    if text_eq (host_only (url_domain u)) (text "localhost")
    then err (text "refused")
    else err (text "timeout")

agree : (u : Text) → IsService u → silent u ≡ refusing u
unfolding text_eq text
agree u (inl e) = rw e refl
agree u (inr e) = rw e refl

execute_search_hosts_example :
    execute_search values silent (text "rust") 5 ≡ execute_search values refusing (text "rust") 5
execute_search_hosts_example = execute_search_hosts values silent refusing (text "rust") 5 agree

-- A disk with one file, and a hash that tells only its first byte.
abbrev one_file : Text → Result Text (List ℕ)
one_file path =
    if text_eq path (text "/p/plugin.toml") then ok (b'x' ∷ []) else err (text "missing")

abbrev first_byte : List ℕ → Text
first_byte [] = []
first_byte (b ∷ bs) = b ∷ []

verify_file_hash_example :
    (verify_file_hash one_file first_byte (text "/p/plugin.toml") (text " sha256:x") ≡ ok tt) ↔ (
      (bytes : List ℕ) × (one_file (text "/p/plugin.toml") ≡ ok bytes)
      × (trim (text " sha256:x") ≡ text "sha256:" ++ first_byte bytes))
verify_file_hash_example =
    verify_file_hash_iff one_file first_byte (text "/p/plugin.toml") (text " sha256:x")

insert_vec_sql_example :
    insert_vec_sql (text "a") (text "b" ++ (text "', '" ++ text "c")) (text "[1]")
    ≡ insert_vec_sql (text "a" ++ (text "', '" ++ text "b")) (text "c") (text "[1]")
insert_vec_sql_example = insert_vec_sql-ambiguous (text "a") (text "b") (text "c") (text "[1]")
