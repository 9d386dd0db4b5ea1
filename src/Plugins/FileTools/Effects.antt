-- ===== src/Plugins/FileTools/Effects.antt =====
-- What a request does to the files, and that it is answered.
use ai_garage.Common.{
  ◌≡◌, inl, inr, refl, ap, ◌∙◌, false, List, [], ◌∷◌, some, Text, text, text_eq, length, utf8,
  Result, ok, err, Option-cases, arith,
}
use ai_garage.Json.{Json}
use ai_garage.Protocol.JsonRpc.{Request, Response, success}
use ai_garage.Protocol.Lifecycle.{PluginAnnounceResult}
use ai_garage.Plugins.Serving.{
  unknown_method, IsAnswer, success-IsAnswer, error_response-IsAnswer, IsAnswer-if, lifecycle,
  lifecycle-IsAnswer, get_str, call_method,
}
use ai_garage.Plugins.FileTools.{
  Fs, Entry, filesystem_manifest, missing, read_response, file_read, write_response, make_parent,
  write_file, file_write, list_response, list_dir, call_tool, handle_request,
}

module _ (j : Json) {S : Type 0} (fs : Fs S) where
  missing-IsAnswer : (req : Request j.Value) (name : Text) → IsAnswer j req (missing j fs req name)
  unfolding missing
  missing-IsAnswer req name = error_response-IsAnswer j req _

  read_response-IsAnswer :
      (req : Request j.Value) (path : Text) (r : Result Text Text)
      → IsAnswer j req (read_response j fs req path r)
  unfolding read_response
  read_response-IsAnswer req path (ok content) = success-IsAnswer j req _
  read_response-IsAnswer req path (err e) = error_response-IsAnswer j req _

  write_response-IsAnswer :
      (req : Request j.Value) (path content : Text) (r : Result Text (Unit {0}))
      → IsAnswer j req (write_response j fs req path content r)
  unfolding write_response
  write_response-IsAnswer req path content (ok u) = success-IsAnswer j req _
  write_response-IsAnswer req path content (err e) = error_response-IsAnswer j req _

  list_response-IsAnswer :
      (req : Request j.Value) (path : Text) (r : Result Text (List Entry))
      → IsAnswer j req (list_response j fs req path r)
  unfolding list_response
  list_response-IsAnswer req path (ok entries) = success-IsAnswer j req _
  list_response-IsAnswer req path (err e) = error_response-IsAnswer j req _

  file_read-IsAnswer :
      (req : Request j.Value) (payload : j.Value) (s : S)
      → IsAnswer j req (file_read j fs req payload s)
  unfolding file_read
  file_read-IsAnswer req payload s = elim (Option-cases (get_str j payload (text "path"))) [
    | inl e ↦ rw (file_read, e) (missing-IsAnswer req _)
    | inr (p, e) ↦ rw (file_read, e) (read_response-IsAnswer req p _)
  ]

  file_write-IsAnswer :
      (req : Request j.Value) (payload : j.Value) (s : S)
      → IsAnswer j req (file_write j fs req payload s).0
  unfolding file_write write_file
  file_write-IsAnswer req payload s = elim (Option-cases (get_str j payload (text "path"))) [
    | inl e ↦ rw (file_write, e) (missing-IsAnswer req _)
    | inr (p, e) ↦ elim (Option-cases (get_str j payload (text "content"))) [
      | inl f ↦ rw (file_write, e, f) (missing-IsAnswer req _)
      | inr (c, f) ↦ rw (file_write, e, f) (write_response-IsAnswer req p c _)
    ]
  ]

  call_tool-IsAnswer : (req : Request j.Value) (s : S) → IsAnswer j req (call_tool j fs req s).0
  unfolding call_tool list_dir
  call_tool-IsAnswer req s =
      let method = call_method j req.params in
      IsAnswer-if j req (text_eq method (text "file_read")) _ _ (file_read-IsAnswer req _ s) (
        IsAnswer-if j req (text_eq method (text "file_write")) _ _ (file_write-IsAnswer req _ s) (
          IsAnswer-if j req (text_eq method (text "list_dir")) _ _ (list_response-IsAnswer req _ _)
            (error_response-IsAnswer j req _)))

  module _ (announced : PluginAnnounceResult j.Value → j.Value) where
    -- Every request to the file tools is answered, under its identifier and with either a result or
    -- an error.
    pub files-IsAnswer :
        (req : Request j.Value) (s : S) → IsAnswer j req (handle_request j fs announced req s).0
    unfolding handle_request
    files-IsAnswer req s =
        elim (Option-cases
          (lifecycle j unknown_method announced (filesystem_manifest j.Value) req)) [
            | inr (resp, e) ↦
                rw (handle_request, e) (lifecycle-IsAnswer j unknown_method announced _ req resp e)
            | inl e ↦ rw (handle_request, e) (call_tool-IsAnswer req s)
          ]

  -- A call of a method other than file_write changes no file.
  call_tool-kept :
      (req : Request j.Value) (s : S)
      → text_eq (call_method j req.params) (text "file_write") ≡ false
      → (call_tool j fs req s).1 ≡ s
  unfolding call_tool
  call_tool-kept req s h = ground (arith, h)

  file_write-path :
      (req : Request j.Value) (payload : j.Value) (path content : Text) (s : S)
      → get_str j payload (text "path") ≡ some path
      → get_str j payload (text "content") ≡ some content
      → file_write j fs req payload s ≡ write_file j fs req path content s
  unfolding file_write
  file_write-path req payload path content s a b = rw (file_write, a, b) refl

  file_read-path :
      (req : Request j.Value) (payload : j.Value) (path : Text) (s : S)
      → get_str j payload (text "path") ≡ some path
      → file_read j fs req payload s ≡ read_response j fs req path (fs.read_to_string path s)
  unfolding file_read
  file_read-path req payload path s a = rw (file_read, a) refl

  -- What is written is read back: after a call of file_write that succeeds, a call of file_read with the
  -- same path gets the content and its number of bytes, where the file system reads what it wrote.
  pub file_read-file_write :
      (req req' : Request j.Value) (payload payload' : j.Value) (path content : Text) (s : S)
      → get_str j payload (text "path") ≡ some path
      → get_str j payload (text "content") ≡ some content
      → get_str j payload' (text "path") ≡ some path
      → (fs.write path content (make_parent j fs path s)).0 ≡ ok tt
      → ((t : S)
          → (fs.write path content t).0 ≡ ok tt
          → fs.read_to_string path (fs.write path content t).1 ≡ ok content)
      → file_read j fs req' payload' (file_write j fs req payload s).1
        ≡ success req'.id (
            j.object (
              (text "path", j.string path)
              ∷ (text "content", j.string content)
              ∷ (text "bytes", j.number (length (utf8 content)))
              ∷ []))
  unfolding write_file read_response
  file_read-file_write req req' payload payload' path content s a b d written reads =
      let made = make_parent j fs path s in
      ap (λ (t : Response j.Value × S). file_read j fs req' payload' t.1)
        (file_write-path req payload path content s a b)
      ∙ file_read-path req' payload' path (fs.write path content made).1 d
      ∙ ap (read_response j fs req' path) (reads made written)
