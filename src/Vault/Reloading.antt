-- ===== src/Vault/Reloading.antt =====
-- crates/chassis-core/src/vault.rs: a vault that was saved, loaded again.
use ai_garage.Common.{
  ℕ, ◌≡◌, refl, inl, inr, true, ◌==◌, List, length, some, Text, text, ok, Bool-cases, Option-cases,
  Result-cases, arith,
}
use ai_garage.Vault.{
  VaultContainer, EncryptedVault, to_hex, Cipher, Format, Saving, vault_failed, save_to_file,
  open_container, load_from_file,
}
use ai_garage.Vault.Hex.{are_bytes, from_hex-to_hex}

-- The container that is written.
abbrev pub container_of : List ℕ → List ℕ → List ℕ → VaultContainer
container_of salt nonce sealed = record {
  version = text "1.0.0";
  salt_hex = to_hex salt;
  nonce_hex = to_hex nonce;
  ciphertext_hex = to_hex sealed;
}

-- What is sealed opens under the same key and nonce, and consists of bytes.
abbrev pub Opens : Cipher → List ℕ → List ℕ → Type 0
Opens k key nonce =
    (plain sealed : List ℕ)
    → k.seal key nonce plain ≡ some sealed
    → (k.open_sealed key nonce sealed ≡ some plain) × (are_bytes sealed ≡ true)

-- The texts of the secrets and of the containers with this salt and this nonce read back.
abbrev pub ReadsBack : Format → EncryptedVault → List ℕ → List ℕ → Type 0
ReadsBack f v salt nonce =
    ((plain : List ℕ) → f.secrets_bytes v.secrets ≡ ok plain → f.parse_secrets plain ≡ ok v.secrets)
    × ((sealed : List ℕ) (content : Text)
        → f.container_text (container_of salt nonce sealed) ≡ ok content
        → f.parse_container content ≡ ok (container_of salt nonce sealed))

-- The bytes that a random number generator filled, of a given size.
abbrev pub AreRandom : List ℕ → ℕ → Type 0
AreRandom bs size = (are_bytes bs ≡ true) × ((length bs == size) ≡ true)

module _ (k : Cipher) (f : Format) where
  open_container_lem :
      (v : EncryptedVault) (passphrase : Text) (salt nonce sealed plain : List ℕ)
      → AreRandom salt 16
      → AreRandom nonce 12
      → are_bytes sealed ≡ true
      → k.key_accepted (k.derive_key passphrase salt) ≡ true
      → k.nonce_accepted nonce ≡ true
      → k.open_sealed (k.derive_key passphrase salt) nonce sealed ≡ some plain
      → f.parse_secrets plain ≡ ok v.secrets
      → open_container k f (container_of salt nonce sealed) passphrase ≡ ok v
  unfolding open_container
  open_container_lem v passphrase salt nonce sealed plain (a, l) (b, m) s key once opened parsed =
      rw
        (
          from_hex-to_hex (vault_failed (text "Invalid salt format")) salt a,
          from_hex-to_hex (vault_failed (text "Invalid nonce format")) nonce b,
          from_hex-to_hex (vault_failed (text "Invalid ciphertext format")) sealed s,
          l,
          m,
          key,
          once,
          opened,
          parsed,
        )
        refl

  -- A vault that was saved is loaded again from the file's content with the same passphrase, if the
  -- cipher opens what it sealed, the texts read back, and the random numbers have their size.
  pub load-save :
      (d : Saving) (v : EncryptedVault) (path passphrase content : Text) (salt nonce : List ℕ)
      → d.salt ≡ some salt
      → d.nonce ≡ some nonce
      → AreRandom salt 16
      → AreRandom nonce 12
      → Opens k (k.derive_key passphrase salt) nonce
      → ReadsBack f v salt nonce
      → save_to_file k f d v passphrase ≡ ok content
      → load_from_file k f path (some (ok content)) passphrase ≡ ok v
  unfolding save_to_file load_from_file
  load-save d v path passphrase content salt nonce ds dn rs rn opens reads h =
      elim (Bool-cases (k.key_accepted (k.derive_key passphrase salt))) [
        | inr e ↦ absurd (ground (arith, ds, dn, e))
        | inl key ↦ elim (Bool-cases (k.nonce_accepted nonce)) [
          | inr e ↦ absurd (ground (arith, ds, dn, key, e))
          | inl once ↦ elim (Result-cases (f.secrets_bytes v.secrets)) [
            | inr (x, e) ↦ absurd (ground (arith, ds, dn, key, once, e))
            | inl (plain, p) ↦
                elim (Option-cases (k.seal (k.derive_key passphrase salt) nonce plain)) [
                  | inl e ↦ absurd (ground (arith, ds, dn, key, once, p, e))
                  | inr (sealed, s) ↦
                      elim (Result-cases (f.container_text (container_of salt nonce sealed))) [
                        | inr (x, e) ↦ absurd (ground (arith, ds, dn, key, once, p, s, e))
                        | inl (json, e) ↦
                            let (opened, bytes) = opens plain sealed s in
                            let same : json ≡ content =
                              ground (arith, ds, dn, key, once, p, s, e) in
                            let parsed = reads.1 sealed json e in
                            rw (← same, parsed)
                              (open_container_lem v passphrase salt nonce sealed plain rs rn bytes
                                key once opened (reads.0 plain p))
                      ]
                ]
          ]
        ]
      ]
