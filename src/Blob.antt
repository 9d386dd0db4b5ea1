-- ===== src/Blob.antt =====
-- crates/chassis-core/src/blob.rs: the content-addressed store for large payloads. The files are a
-- map from paths to bytes; SHA-256 and the outcomes of the disk are parameters.
pub mod Addressing
use ai_garage.Common.{
  ℕ, Bool, true, false, List, [], ◌∷◌, ◌++◌, length, Option, none, some, Text, text, text_eq,
  strip_prefix, Dict, lookup, insert, Result, ok, err, ◌>>=◌, ◌>>◌, require, ok_or, unwrap_or,
}
use ai_garage.Error.{CoreError, policy_violation, io}
use ai_garage.Paths.{join}
use ai_garage.Protocol.Envelope.{BlobRef}
use ai_garage.Wal.{or_io}

abbrev pub Files : Type 0
Files = Dict (List ℕ)

-- "sha256:"
abbrev pub hash_prefix : Text
hash_prefix = b's' ∷ b'h' ∷ b'a' ∷ b'2' ∷ b'5' ∷ b'6' ∷ b':' ∷ []

unfoldable pub hash_of : BlobRef → Text
hash_of r = unwrap_or (strip_prefix r.blob hash_prefix) r.blob

unfoldable pub missing_message : Text → Text
missing_message blob = text "Blob payload not found on disk: '" ++ blob ++ text "'"

unfoldable pub mismatch_message : Text → Text → Text
mismatch_message blob computed =
    text "Blob checksum mismatch: expected " ++ blob ++ text ", got sha256:" ++ computed

-- `sha256` gives the digest in hexadecimal.
module _ (sha256 : List ℕ → Text) (blob_dir : Text) where
  -- `written` is the outcome of the write, with the files as a failed one leaves them.
  unfoldable pub store :
      Result (Text × Files) (Unit {0}) → Files → List ℕ → Text → Result CoreError BlobRef × Files
  store (err (e, left)) files bytes mime_type = (err (io e), left)
  store (ok _) files bytes mime_type = (
    ok (record {
      blob = hash_prefix ++ sha256 bytes;
      mime_type = mime_type;
      byte_length = length bytes;
    }),
    insert (join blob_dir (sha256 bytes)) bytes files,
  )

  -- `readable` is the outcome of reading a file that exists.
  unfoldable pub read : Result Text (Unit {0}) → Files → BlobRef → Result CoreError (List ℕ)
  read readable files r = do
    bytes ←
        ok_or (lookup (join blob_dir (hash_of r)) files) (policy_violation (missing_message r.blob))
    or_io readable
    require (text_eq (sha256 bytes) (hash_of r))
        (policy_violation (mismatch_message r.blob (sha256 bytes)))
    ok bytes
