-- ===== src/Plugins/Storage/Requests.antt =====
-- crates/plugins/chassis-storage-sqlite/src/main.rs: the opening of the store and the requests of the
-- plugin. The environment, the connection and the numbers of serde_json beyond `Json` are parameters.
use ai_garage.Common.{
  ℕ, ◌%◌, ◌^◌, Bool, true, false, List, [], ◌∷◌, ◌++◌, Option, none, some, Text, text, text_eq,
  unwrap_or, map, Result, ok, err, if◌then◌else◌,
}
use ai_garage.Int.{ℤ, pos}
use ai_garage.Json.{Json}
use ai_garage.Protocol.RpcError
use ai_garage.Protocol.JsonRpc.{Request, Response, success, error_response}
use ai_garage.Protocol.Lifecycle.{PluginAnnounceManifest, PluginAnnounceResult}
use ai_garage.Paths.{parent}
use ai_garage.Plugins.Serving.{◌>>?◌, announcement, get_str, call_method, call_payload, lifecycle}
use ai_garage.Plugins.Storage.Rows.{
  Role, from_str, Conversation, StoredMessage, SimilarityMatch, StorageError, database, show_error,
  Libsql,
}
use ai_garage.Plugins.Storage.Store.{
  create_tables, create_conversation, get_conversation, list_conversations,
  update_conversation_title, delete_conversation, append_message, get_messages,
  search_similar_messages, next,
}

unfoldable pub storage_manifest : (V : Type 0) → PluginAnnounceManifest V
unfolding announcement
storage_manifest V =
    announcement V (text "chassis.storage.sqlite") (text "SQLite Conversation Storage")
      (text
        "Sovereign UI conversation storage and semantic memory engine with libSQL vector search")
      (text "storage.conversation")
      (text "conversation_create"
        ∷ text "conversation_get"
        ∷ text "conversation_list"
        ∷ text "conversation_update_title"
        ∷ text "conversation_delete"
        ∷ text "message_append"
        ∷ text "message_get_history"
        ∷ text "message_search_similar"
        ∷ [])
      []

-- Where the database is: none in memory. The variable CHASSIS_STORAGE_PATH may say.
unfoldable pub db_path_of : Option Text → Option Text
db_path_of none = some (text ".chassis/storage/conversations.db")
db_path_of (some custom_path) =
    if text_eq custom_path (text ":memory:") then none else some custom_path

-- `as u32`, then `as i64`
unfoldable pub narrow : ℕ → ℤ
narrow n = pos (n % 2 ^ 32)

unfoldable pub filter_map : {A B : Type 0} → (A → Option B) → List A → List B
filter_map f [] = []
filter_map f (x ∷ xs) = elim (f x) [ none ↦ filter_map f xs | some y ↦ y ∷ filter_map f xs ]

-- What `json!` makes of the records, and the numbers of a value.
pub record Serde (V F : Type 0) : Type 0 where
  pub announced : PluginAnnounceResult V → V
  pub conversation_value : Conversation V → V
  pub message_value : StoredMessage V → V
  pub match_value : SimilarityMatch V F → V
  pub as_i64 : V → Option ℤ
  pub as_f32 : V → Option F
  -- `serde_json::from_str` with the text of its error
  pub parse : Text → Result Text V

-- What the plugin finds in its environment: the variables CHASSIS_STORAGE_PATH and
-- CHASSIS_STORAGE_DIMENSIONS, the latter already parsed, and how a directory is made and a database
-- opened.
pub record Setting (D : Type 0) : Type 0 where
  pub storage_path : Option Text
  pub storage_dimensions : Option ℕ
  pub create_dir_all : Text → Result Text (Unit {0})
  -- the text of `libsql::Error::Misuse`
  pub misuse : Text → Text
  pub connect : Text → D → Result Text D

-- The store once it is open: its dimension. `D` is the database.
pub record Store (D : Type 0) : Type 0 where
  pub opened : Option ℕ
  pub contents : D

module _ (j : Json) {D F : Type 0} (sql : Libsql D F) (show_real : F → Text)
    (serde : Serde j.Value F) (setting : Setting D) (now : ℤ) where
  abbrev pub Served : Type 0
  Served = Response j.Value × D

  -- The directory of the database.
  unfoldable pub make_directory : Option Text → Result Text (Unit {0})
  unfolding parent
  make_directory db_path = elim (db_path >>? parent) [
    | none ↦ ok tt
    | some dir ↦ elim (setting.create_dir_all dir) [
      | err e ↦ err (setting.misuse (text "Failed to create storage directory: " ++ e))
      | ok u ↦ ok tt
    ]
  ]

  unfoldable pub connected : Option Text → D → Result StorageError D
  connected db_path d = elim (setting.connect (unwrap_or db_path (text ":memory:")) d) [
    | err e ↦ err (database e)
    | ok d' ↦ ok d'
  ]

  -- The tables of a connected database; the cell stays empty after an error.
  unfoldable pub prepared : ℕ → D → Result StorageError D → Result StorageError ℕ × Store D
  unfolding create_tables next
  prepared dims d (err e) = (err e, record { opened = none; contents = d })
  prepared dims d (ok d') =
      let (res, d'') = create_tables j sql show_real serde.parse now dims d' in
      elim res [
        | err e ↦ (err e, record { opened = none; contents = d'' })
        | ok u ↦ (ok dims, record { opened = some dims; contents = d'' })
      ]

  unfoldable pub open_store : D → Result StorageError ℕ × Store D
  unfolding make_directory connected prepared db_path_of
  open_store d =
      let db_path = db_path_of setting.storage_path in
      elim (make_directory db_path) [
        | err e ↦ (err (database e), record { opened = none; contents = d })
        | ok u ↦ prepared (unwrap_or setting.storage_dimensions 384) d (connected db_path d)
      ]

  -- The store is opened at the first call that needs it.
  unfoldable pub get_or_init_store : Store D → Result StorageError ℕ × Store D
  unfolding open_store
  get_or_init_store s = elim s.opened [ none ↦ open_store s.contents | some dims ↦ (ok dims, s) ]

  -- A result of the store as a response.
  unfoldable pub reply_with :
      {A : Type 0} → Request j.Value → (A → j.Value) → Result StorageError A → Response j.Value
  unfolding show_error
  reply_with req to_value (ok a) = success req.id (to_value a)
  reply_with req to_value (err e) = error_response req.id (RpcError.internal_error (show_error e))

  unfoldable pub reply_changed :
      {A : Type 0} → Request j.Value → (A → j.Value) → Result StorageError A × D → Served
  unfolding reply_with
  reply_changed req to_value (res, d) = (reply_with req to_value res, d)

  abbrev not_found_response : Request j.Value → Response j.Value
  not_found_response req =
      error_response req.id (RpcError.invalid_params (text "Conversation not found"))

  unfoldable pub reply_found :
      Request j.Value → Result StorageError (Option (Conversation j.Value)) → Response j.Value
  unfolding reply_with
  reply_found req (ok none) = not_found_response req
  reply_found req (ok (some conv)) = success req.id (serde.conversation_value conv)
  reply_found req (err e) = reply_with req serde.conversation_value (err e)

  unfoldable pub reply_updated : Request j.Value → Result StorageError Bool × D → Served
  unfolding reply_with
  reply_updated req (ok true, d) =
      (success req.id (j.object ((text "updated", j.bool true) ∷ [])), d)
  reply_updated req (ok false, d) = (not_found_response req, d)
  reply_updated req (err e, d) = (reply_with req j.bool (err e), d)

  abbrev one_field : Text → j.Value → j.Value
  one_field name v = j.object ((name, v) ∷ [])

  -- A text of the payload, or what stands for it.
  abbrev or_text : j.Value → Text → Text → Text
  or_text payload name other = unwrap_or (get_str j payload name) other

  abbrev or_number : j.Value → Text → ℕ → ℕ
  or_number payload name other = unwrap_or (j.get payload name >>? (λ v. j.as_u64 v)) other

  abbrev vector_of : j.Value → Text → Option (List F)
  vector_of payload name = elim (j.get payload name >>? (λ v. j.as_array v)) [
    | none ↦ none
    | some arr ↦ some (filter_map serde.as_f32 arr)
  ]

  unfoldable pub call_create : Request j.Value → j.Value → D → Served
  unfolding create_conversation reply_changed get_str
  call_create req payload d = reply_changed req serde.conversation_value (
      create_conversation j sql show_real serde.parse now (or_text payload (text "id") [])
        (or_text payload (text "title") (text "New Conversation"))
        (or_text payload (text "model_id") (text "default"))
        (get_str j payload (text "system_prompt")) (get_str j payload (text "chassis_session_id"))
        (j.get payload (text "metadata")) d)

  -- The message of the payload under a role that could be read.
  unfoldable pub append_as : ℕ → Request j.Value → j.Value → Result Text Role → D → Served
  unfolding append_message reply_changed get_str
  append_as dims req payload (err e) d = (error_response req.id (RpcError.invalid_params e), d)
  append_as dims req payload (ok role) d = reply_changed req serde.message_value (
      append_message j sql show_real serde.parse now dims (or_text payload (text "id") [])
        (or_text payload (text "conversation_id") []) role (or_text payload (text "content") [])
        (unwrap_or (j.get payload (text "token_count") >>? serde.as_i64) (pos 0))
        (j.get payload (text "wal_seq") >>? serde.as_i64) (j.get payload (text "metadata"))
        (vector_of payload (text "embedding")) d)

  unfoldable pub call_append : ℕ → Request j.Value → j.Value → D → Served
  unfolding append_as from_str
  call_append dims req payload d =
      append_as dims req payload (from_str (or_text payload (text "role") (text "user"))) d

  unfoldable pub call_history : Request j.Value → j.Value → D → Response j.Value
  unfolding get_messages reply_with narrow
  call_history req payload d =
      reply_with req
        (λ messages. one_field (text "messages") (j.array (map serde.message_value messages)))
        (get_messages j sql show_real serde.parse now (or_text payload (text "conversation_id") [])
          (narrow (or_number payload (text "limit") 50))
          (narrow (or_number payload (text "offset") 0)) d)

  unfoldable pub call_similar : ℕ → Request j.Value → j.Value → D → Response j.Value
  unfolding search_similar_messages reply_with
  call_similar dims req payload d = elim (vector_of payload (text "query_vector")) [
    | none ↦
        error_response req.id (RpcError.invalid_params (text "Missing 'query_vector' parameter"))
    | some query_vec ↦
        reply_with req
          (λ matches. one_field (text "matches") (j.array (map serde.match_value matches)))
          (search_similar_messages j sql show_real serde.parse now dims query_vec
            (or_number payload (text "top_k") 5) (get_str j payload (text "conversation_id")) d)
  ]

  unfoldable pub call_list : Request j.Value → j.Value → D → Response j.Value
  unfolding list_conversations reply_with narrow
  call_list req payload d =
      reply_with req
        (λ list. one_field (text "conversations") (j.array (map serde.conversation_value list)))
        (list_conversations j sql show_real serde.parse now
          (narrow (or_number payload (text "limit") 20))
          (narrow (or_number payload (text "offset") 0)) d)

  unfoldable pub call_store : ℕ → Request j.Value → D → Served
  unfolding call_create get_conversation reply_found call_list update_conversation_title
      reply_updated delete_conversation call_append call_history call_similar call_method
      call_payload
  call_store dims req d =
      let method = call_method j req.params in
      let payload = call_payload j req.params in
      let id = or_text payload (text "id") [] in
      if text_eq method (text "conversation_create")
      then call_create req payload d
      else if text_eq method (text "conversation_get")
      then (reply_found req (get_conversation j sql show_real serde.parse now id d), d)
      else if text_eq method (text "conversation_list")
      then (call_list req payload d, d)
      else if text_eq method (text "conversation_update_title")
      then reply_updated req (
          update_conversation_title j sql show_real serde.parse now id
            (or_text payload (text "title") []) d)
      else if text_eq method (text "conversation_delete")
      then reply_changed req (λ deleted. one_field (text "deleted") (j.bool deleted))
          (delete_conversation j sql show_real serde.parse now id d)
      else if text_eq method (text "message_append")
      then call_append dims req payload d
      else if text_eq method (text "message_get_history")
      then (call_history req payload d, d)
      else if text_eq method (text "message_search_similar")
      then (call_similar dims req payload d, d)
      else (
        error_response req.id
            (RpcError.method_not_found (text "Unknown storage method: " ++ method)),
        d,
      )

  -- A call, once the store is there or not.
  unfoldable pub serve_opened :
      Request j.Value → Result StorageError ℕ × Store D → Response j.Value × Store D
  unfolding call_store show_error
  serve_opened req (err e, s) = (
    error_response req.id
        (RpcError.internal_error (text "Failed to initialize storage: " ++ show_error e)),
    s,
  )
  serve_opened req (ok dims, s) =
      let (resp, d) = call_store dims req s.contents in (resp, record s { contents = d })

  unfoldable pub handle_request : Request j.Value → Store D → Response j.Value × Store D
  unfolding serve_opened get_or_init_store lifecycle storage_manifest
  handle_request req s =
      elim (lifecycle j (λ m. text "Unknown kernel method: " ++ m) serde.announced
        (storage_manifest j.Value) req) [
          | some resp ↦ (resp, s)
          | none ↦ serve_opened req (get_or_init_store s)
        ]
