-- ===== src/Lockfile.antt =====
-- crates/chassis-core/src/lockfile.rs: the pinned plugins of a workspace and the check of their hashes.
-- The TOML parser, the files and SHA-256 are parameters; files hold bytes.
use ai_garage.Common.{
  ℕ, ◌≡◌, ◌↔◌, refl, sym, ◌∙◌, Bool, true, not, List, ◌++◌, Option, Text, text, text_eq,
  text_eq_iff, trim, find_by, Result, ok, err, ◌>>=◌, if◌then◌else◌, Result-cases, inl, inr, arith,
}
use ai_garage.Error.{CoreError, io, toml, checksum_mismatch}

pub record LockedPlugin : Type 0 where
  pub id : Text
  pub version : Text
  pub source : Text
  pub hash : Text
  pub enabled : Bool
  pub path : Option Text

-- What the fields are when the file leaves them out.
abbrev pub default_source : Text
default_source = text "global"

abbrev pub default_enabled : Bool
default_enabled = true

abbrev pub default_lockfile_version : Text
default_lockfile_version = text "1.0.0"

pub record PluginLockfile : Type 0 where
  pub version : Text
  pub workspace_root : Text
  pub plugins : List LockedPlugin

unfoldable pub from_toml :
    (Text → Result Text PluginLockfile) → Text → Result CoreError PluginLockfile
from_toml parse content = elim (parse content) [ err e ↦ err (toml e) | ok l ↦ ok l ]

unfoldable pub from_file :
    (Text → Result Text PluginLockfile)
    → (Text → Result Text Text)
    → Text
    → Result CoreError PluginLockfile
unfolding from_toml
from_file parse read path = elim (read path) [
  | err e ↦ err (io e)
  | ok content ↦ from_toml parse content
]

unfoldable pub find_plugin : PluginLockfile → Text → Option LockedPlugin
find_plugin l id = find_by (λ p. text_eq p.id id) l.plugins

unfoldable pub compare_hash : Text → Text → Text → Result CoreError (Unit {0})
unfolding trim
compare_hash path expected_hash actual_hash =
    let clean_expected = trim expected_hash in
    if not (text_eq clean_expected actual_hash)
    then err (checksum_mismatch path clean_expected actual_hash)
    else ok tt

compare_hash_iff :
    (path expected actual : Text)
    → (compare_hash path expected actual ≡ ok tt) ↔ (trim expected ≡ actual)
unfolding compare_hash
compare_hash_iff path expected actual = ground (arith, text_eq_iff (trim expected) actual)

module _ (read : Text → Result Text (List ℕ)) (sha256 : List ℕ → Text) where
  unfoldable pub compute_file_sha256 : Text → Result CoreError Text
  compute_file_sha256 path = elim (read path) [
    | err e ↦ err (io e)
    | ok bytes ↦ ok (text "sha256:" ++ sha256 bytes)
  ]

  unfoldable pub verify_file_hash : Text → Text → Result CoreError (Unit {0})
  unfolding compute_file_sha256 compare_hash
  verify_file_hash path expected_hash =
      (compute_file_sha256 path >>= compare_hash path expected_hash)

  verify_file_hash-read :
      (path expected_hash : Text) (bytes : List ℕ)
      → read path ≡ ok bytes
      → verify_file_hash path expected_hash
        ≡ compare_hash path expected_hash (text "sha256:" ++ sha256 bytes)
  unfolding verify_file_hash
  verify_file_hash-read path expected_hash bytes e =
      rw (verify_file_hash, compute_file_sha256, e) refl

  -- A file passes exactly if it can be read and its digest, with the prefix "sha256:", is the expected
  -- hash without the white space around it.
  pub verify_file_hash_iff :
      (path expected_hash : Text)
      → (verify_file_hash path expected_hash ≡ ok tt) ↔ (
          (bytes : List ℕ) × (read path ≡ ok bytes)
          × (trim expected_hash ≡ text "sha256:" ++ sha256 bytes))
  unfolding verify_file_hash
  verify_file_hash_iff path expected_hash = (
    λ h. elim (Result-cases (read path)) [
      | inl (bytes, e) ↦ (
        bytes,
        e,
        (compare_hash_iff path expected_hash _).0
            (sym (verify_file_hash-read path expected_hash bytes e) ∙ h),
      )
      | inr (x, e) ↦ ground (arith, e)
    ],
    λ (bytes, e, g).
        verify_file_hash-read path expected_hash bytes e
        ∙ (compare_hash_iff path expected_hash _).1 g,
  )
