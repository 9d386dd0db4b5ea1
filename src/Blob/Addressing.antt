-- ===== src/Blob/Addressing.antt =====
-- crates/chassis-core/src/blob.rs: what is stored is read back, and what is read has the digest of
-- its reference.
use ai_garage.Common.{
  ℕ, ◌≡◌, refl, inl, inr, false, List, ◌++◌, some, Text, text_eq, text_eq_iff, text_eq_refl,
  strip_prefix, lookup, insert, lookup-insert, Result, ok, err, Option-cases, Result-cases, arith,
}
use ai_garage.Paths.{join}
use ai_garage.Protocol.Envelope.{BlobRef}
use ai_garage.Blob.{Files, hash_prefix, hash_of, store, read}

module _ (sha256 : List ℕ → Text) (blob_dir : Text) where
  -- What a store has answered with a reference for is read back under it from the files as they are
  -- then, and every other path keeps its file.
  pub read-store :
      (written : Result (Text × Files) (Unit {0})) (files : Files) (bytes : List ℕ)
      (mime_type : Text) (r : BlobRef)
      → (store sha256 blob_dir written files bytes mime_type).0 ≡ ok r
      → let files' = (store sha256 blob_dir written files bytes mime_type).1 in
        (read sha256 blob_dir (ok tt) files' r ≡ ok bytes)
        × ((p : Text)
            → text_eq (join blob_dir (sha256 bytes)) p ≡ false
            → lookup p files' ≡ lookup p files)
  unfolding store
  read-store (err (e, left)) files bytes mime_type r h = cc
  read-store (ok u) files bytes mime_type r h =
      let name : r.blob ≡ hash_prefix ++ sha256 bytes = ground arith in
      let hash : hash_of r ≡ sha256 bytes = unfold hash_of in unfold strip_prefix in rw name refl in
      let path = join blob_dir (sha256 bytes) in
      let found : lookup path (insert path bytes files) ≡ some bytes =
        ground (arith, lookup-insert path path bytes files, text_eq_refl path) in
      (
        unfold read in rw (hash, found, text_eq_refl (sha256 bytes)) refl,
        λ p k. ground (arith, lookup-insert path p bytes files, k),
      )

  -- Bytes that are read have the digest that the reference names, whatever the files hold.
  pub read_sound :
      (readable : Result Text (Unit {0})) (files : Files) (r : BlobRef) (bytes : List ℕ)
      → read sha256 blob_dir readable files r ≡ ok bytes
      → sha256 bytes ≡ hash_of r
  unfolding read
  read_sound readable files r bytes h =
      elim (Option-cases (lookup (join blob_dir (hash_of r)) files)) [
        | inl e ↦ absurd (ground (arith, e))
        | inr (found, e) ↦ elim (Result-cases readable) [
          | inr (x, f) ↦ absurd (ground (arith, e, f))
          | inl (u, f) ↦ ground (arith, e, f, text_eq_iff (sha256 found) (hash_of r))
        ]
      ]
