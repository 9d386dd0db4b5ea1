-- ===== src/Plugins/FileTools.antt =====
-- crates/plugins/chassis-tools-filesystem/src/main.rs: reading, writing and listing files. The file
-- system is a parameter: a state `S` with the operations of std::fs.
pub mod Effects
use ai_garage.Common.{
  ℕ, Bool, true, false, List, [], ◌∷◌, ◌++◌, Option, none, some, Text, text, text_eq, length, map,
  utf8, unwrap_or, Result, ok, err, if◌then◌else◌,
}
use ai_garage.Json.{Json}
use ai_garage.Protocol.RpcError
use ai_garage.Protocol.JsonRpc.{Request, Response, success, error_response}
use ai_garage.Protocol.Lifecycle.{PluginAnnounceManifest, PluginAnnounceResult}
use ai_garage.Paths.{parent}
use ai_garage.Plugins.Serving.{
  unknown_method, announcement, get_str, call_method, call_payload, lifecycle,
}

-- An entry of a directory; its type and its size may be unreadable.
pub record Entry : Type 0 where
  pub file_name : Text
  pub is_dir : Option Bool
  pub len : Option ℕ

pub record Fs (S : Type 0) : Type 0 where
  pub read_to_string : Text → S → Result Text Text
  pub create_dir_all : Text → S → S
  pub write : Text → Text → S → Result Text (Unit {0}) × S
  pub read_dir : Text → S → Result Text (List Entry)

unfoldable pub filesystem_manifest : (V : Type 0) → PluginAnnounceManifest V
unfolding announcement
filesystem_manifest V =
    announcement V (text "chassis.tools.filesystem") (text "Filesystem Tools")
      (text "Sandboxed workspace file reading, writing, and directory listing")
      (text "tools.execute") (text "file_read" ∷ text "file_write" ∷ text "list_dir" ∷ []) []

module _ (j : Json) {S : Type 0} (fs : Fs S) where
  unfoldable pub missing : Request j.Value → Text → Response j.Value
  missing req name =
      error_response req.id
        (RpcError.invalid_params (text "Missing '" ++ name ++ text "' parameter"))

  unfoldable pub read_response : Request j.Value → Text → Result Text Text → Response j.Value
  read_response req path_str (ok content) = success req.id (
      j.object (
        (text "path", j.string path_str)
        ∷ (text "content", j.string content)
        ∷ (text "bytes", j.number (length (utf8 content)))
        ∷ []))
  read_response req path_str (err e) =
      error_response req.id (RpcError.capability_not_found (text "Failed to read file: " ++ e))

  unfoldable pub file_read : Request j.Value → j.Value → S → Response j.Value
  unfolding missing read_response get_str
  file_read req call_payload s = elim (get_str j call_payload (text "path")) [
    | none ↦ missing req (text "path")
    | some path_str ↦ read_response req path_str (fs.read_to_string path_str s)
  ]

  unfoldable pub write_response :
      Request j.Value → Text → Text → Result Text (Unit {0}) → Response j.Value
  write_response req path_str content (ok _) = success req.id (
      j.object (
        (text "path", j.string path_str)
        ∷ (text "bytes_written", j.number (length (utf8 content)))
        ∷ (text "status", j.string (text "written"))
        ∷ []))
  write_response req path_str content (err e) =
      error_response req.id (RpcError.internal_error (text "Failed to write file: " ++ e))

  -- The directories above a file, made before it is written; errors are ignored.
  unfoldable pub make_parent : Text → S → S
  unfolding parent
  make_parent path s = elim (parent path) [ none ↦ s | some dir ↦ fs.create_dir_all dir s ]

  unfoldable pub write_file : Request j.Value → Text → Text → S → Response j.Value × S
  unfolding make_parent write_response
  write_file req path_str content s =
      let (res, s') = fs.write path_str content (make_parent path_str s) in
      (write_response req path_str content res, s')

  unfoldable pub file_write : Request j.Value → j.Value → S → Response j.Value × S
  unfolding missing write_file get_str
  file_write req call_payload s = elim (get_str j call_payload (text "path")) [
    | none ↦ (missing req (text "path"), s)
    | some path_str ↦ elim (get_str j call_payload (text "content")) [
      | none ↦ (missing req (text "content"), s)
      | some content ↦ write_file req path_str content s
    ]
  ]

  unfoldable pub entry_value : Entry → j.Value
  entry_value e = j.object (
      (text "name", j.string e.file_name)
      ∷ (text "is_dir", j.bool (unwrap_or e.is_dir false))
      ∷ (text "size", j.number (unwrap_or e.len 0))
      ∷ [])

  unfoldable pub list_response :
      Request j.Value → Text → Result Text (List Entry) → Response j.Value
  unfolding entry_value
  list_response req path_str (ok entries) = success req.id (
      j.object (
        (text "path", j.string path_str)
        ∷ (text "entries", j.array (map entry_value entries))
        ∷ []))
  list_response req path_str (err e) =
      error_response req.id (RpcError.internal_error (text "Failed to read directory: " ++ e))

  unfoldable pub list_dir : Request j.Value → j.Value → S → Response j.Value
  unfolding list_response get_str
  list_dir req call_payload s =
      let path_str = unwrap_or (get_str j call_payload (text "path")) (text ".") in
      list_response req path_str (fs.read_dir path_str s)

  unfoldable pub call_tool : Request j.Value → S → Response j.Value × S
  unfolding file_read file_write list_dir call_method call_payload
  call_tool req s =
      let method = call_method j req.params in
      let payload = call_payload j req.params in
      if text_eq method (text "file_read")
      then (file_read req payload s, s)
      else if text_eq method (text "file_write")
      then file_write req payload s
      else if text_eq method (text "list_dir")
      then (list_dir req payload s, s)
      else (
        error_response req.id
            (RpcError.method_not_found (text "Unknown tools method '" ++ method ++ text "'")),
        s,
      )

  unfoldable pub handle_request :
      (PluginAnnounceResult j.Value → j.Value) → Request j.Value → S → Response j.Value × S
  unfolding call_tool lifecycle filesystem_manifest
  handle_request announced req s =
      elim (lifecycle j unknown_method announced (filesystem_manifest j.Value) req) [
        | some resp ↦ (resp, s)
        | none ↦ call_tool req s
      ]
