-- ===== src/Vault.antt =====
-- crates/chassis-core/src/vault.rs: the credential store and its encrypted file. The cipher, the key
-- derivation, the random numbers, serde_json and the file's operations are parameters.
pub mod Hex
pub mod Reloading
use ai_garage.Common.{
  ℕ, ◌+◌, ◌*◌, ◌-◌, ◌/◌, ◌%◌, ltb, leb, ◌==◌, Bool, true, false, not, ◌&&◌, ◌||◌, List, [], ◌∷◌,
  ◌++◌, map, length, Option, none, some, Text, text, Dict, lookup, insert, remove, Result, ok, err,
  ◌>>=◌, ◌>>◌, require, if◌then◌else◌, ok_or,
}
use ai_garage.Error.{CoreError, vault_error, io, Fault, failed, panic}

-- `VaultContainer`
pub record VaultContainer : Type 0 where
  pub version : Text
  pub salt_hex : Text
  pub nonce_hex : Text
  pub ciphertext_hex : Text

pub record EncryptedVault : Type 0 where
  pub secrets : Dict Text

unfoldable pub new_vault : EncryptedVault
new_vault = record { secrets = [] }

unfoldable pub set : EncryptedVault → Text → Text → EncryptedVault
set v key value = record { secrets = insert key value v.secrets }

unfoldable pub get : EncryptedVault → Text → Option Text
get v key = lookup key v.secrets

-- What was under the key, and the vault without it.
unfoldable pub delete : EncryptedVault → Text → Option Text × EncryptedVault
delete v key = (lookup key v.secrets, record { secrets = remove key v.secrets })

-- `{:02x}`
unfoldable pub hex_char : ℕ → ℕ
hex_char d = if ltb d 10 then 48 + d else 87 + d

unfoldable pub to_hex : List ℕ → Text
to_hex [] = []
to_hex (b ∷ bs) = hex_char (b / 16) ∷ hex_char (b % 16) ∷ to_hex bs

unfoldable pub hex_digit : ℕ → Option ℕ
hex_digit c =
    if leb 48 c && leb c 57
    then some (c - 48)
    else if leb 97 c && leb c 102
    then some (c - 87)
    else if leb 65 c && leb c 70
    then some (c - 55)
    else none

-- `u8::from_str_radix` in base 16 on two bytes, the first of which may be a plus sign
unfoldable pub radix_digits : Option ℕ → Option ℕ → Option ℕ
radix_digits (some a) (some b) = some (a * 16 + b)
radix_digits (some a) none = none
radix_digits none b = none

unfoldable pub from_radix : ℕ → ℕ → Option ℕ
from_radix a b = if a == 43 then hex_digit b else radix_digits (hex_digit a) (hex_digit b)

-- The bytes go on inside a character: a slice that ends here panics.
unfoldable pub inside_char : List ℕ → Bool
inside_char [] = false
inside_char (b ∷ bs) = leb 128 b && ltb b 192

-- The loop over the pairs of the text's bytes.
unfoldable pub from_pairs : Fault → List ℕ → Result Fault (List ℕ)
from_pairs bad [] = ok []
from_pairs bad (a ∷ []) = err bad
from_pairs bad (a ∷ b ∷ rest) =
    let later = from_pairs bad rest in
    do
      require (not (inside_char rest)) panic
      byte ← ok_or (from_radix a b) bad
      bytes ← later
      ok (byte ∷ bytes)

-- `from_hex(s).map_err(..)`: `bad` is the error. The text is given by its bytes.
unfoldable pub from_hex : Fault → Text → Result Fault (List ℕ)
from_hex bad s = if length s % 2 == 0 then from_pairs bad s else err bad

-- ring: AES-256-GCM and PBKDF2.
pub record Cipher : Type 0 where
  pub derive_key : Text → List ℕ → List ℕ
  pub key_accepted : List ℕ → Bool
  pub nonce_accepted : List ℕ → Bool
  pub seal : List ℕ → List ℕ → List ℕ → Option (List ℕ)
  pub open_sealed : List ℕ → List ℕ → List ℕ → Option (List ℕ)

-- serde_json on the secrets and on the container.
pub record Format : Type 0 where
  pub secrets_bytes : Dict Text → Result Text (List ℕ)
  pub parse_secrets : List ℕ → Result Text (Dict Text)
  pub container_text : VaultContainer → Result Text Text
  pub parse_container : Text → Result Text VaultContainer

-- The outcomes of the file's operations while saving; creating the directory counts as done where
-- the path has no parent.
pub record Saving : Type 0 where
  pub salt : Option (List ℕ)
  pub nonce : Option (List ℕ)
  pub create_dir_all : Result Text (Unit {0})
  pub write : Result Text (Unit {0})
  pub set_permissions : Result Text (Unit {0})

abbrev pub vault_failed : Text → Fault
vault_failed m = failed (vault_error m)

abbrev pub or_fault {ℓ} : {A : Type ℓ} → (Text → CoreError) → Result Text A → Result Fault A
or_fault f (ok a) = ok a
or_fault f (err e) = err (failed (f e))

module _ (k : Cipher) (f : Format) where
  -- `save_to_file`: the text that the file holds afterwards.
  unfoldable pub save_to_file : Saving → EncryptedVault → Text → Result Fault Text
  save_to_file d v passphrase = do
    salt ← ok_or d.salt (vault_failed (text "Failed to generate random salt"))
    nonce ← ok_or d.nonce (vault_failed (text "Failed to generate random nonce"))
    require (k.key_accepted (k.derive_key passphrase salt))
        (vault_failed (text "Failed to construct encryption key"))
    require (k.nonce_accepted nonce) (vault_failed (text "Invalid nonce"))
    plain ←
        or_fault (λ e. vault_error (text "Failed to serialize secrets: " ++ e))
          (f.secrets_bytes v.secrets)
    sealed ←
        ok_or (k.seal (k.derive_key passphrase salt) nonce plain)
          (vault_failed (text "Encryption failed"))
    json_str ←
        or_fault (λ e. vault_error (text "Serialization error: " ++ e))
          (f.container_text (record {
            version = text "1.0.0";
            salt_hex = to_hex salt;
            nonce_hex = to_hex nonce;
            ciphertext_hex = to_hex sealed;
          }))
    or_fault io d.create_dir_all
    or_fault io d.write
    or_fault io d.set_permissions
    ok json_str

  -- `load_from_file` past the reading of the container.
  unfoldable pub open_container : VaultContainer → Text → Result Fault EncryptedVault
  open_container container passphrase = do
    salt ← from_hex (vault_failed (text "Invalid salt format")) container.salt_hex
    nonce ← from_hex (vault_failed (text "Invalid nonce format")) container.nonce_hex
    sealed ← from_hex (vault_failed (text "Invalid ciphertext format")) container.ciphertext_hex
    require (length salt == 16 && length nonce == 12)
        (vault_failed (text "Corrupted vault parameters (salt or nonce length)"))
    require (k.key_accepted (k.derive_key passphrase salt))
        (vault_failed (text "Failed to initialize decryption key"))
    require (k.nonce_accepted nonce) (vault_failed (text "Invalid decryption nonce"))
    plain ←
        ok_or (k.open_sealed (k.derive_key passphrase salt) nonce sealed)
          (vault_failed (text "Decryption failed: incorrect passphrase or corrupted vault file"))
    secrets ←
        or_fault (λ e. vault_error (text "Failed to parse decrypted secrets: " ++ e))
          (f.parse_secrets plain)
    ok (record { secrets = secrets })

  -- `read` is what reading the file gives, where it exists.
  unfoldable pub load_from_file :
      Text → Option (Result Text Text) → Text → Result Fault EncryptedVault
  load_from_file path none passphrase =
      err (vault_failed (text "Vault file does not exist at '" ++ path ++ text "'"))
  load_from_file path (some read) passphrase = do
    content ← or_fault io read
    container ←
        or_fault (λ e. vault_error (text "Invalid vault container: " ++ e))
          (f.parse_container content)
    open_container container passphrase
