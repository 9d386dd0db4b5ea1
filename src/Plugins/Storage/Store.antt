-- ===== src/Plugins/Storage/Store.antt =====
-- crates/plugins/chassis-storage-sqlite/src/lib.rs: the operations of `ConversationStore`. `now` is the
-- time in milliseconds, `F` a float and `show_real` its text. An operation returns its result and the
-- database after it.
use ai_garage.Common.{
  ℕ, ◌==◌, ltb, Bool, not, List, [], ◌∷◌, ◌++◌, Option, none, some, Text, text, length, show_nat,
  unwrap_or, Result, ok, err, ◌>>=◌, if◌then◌else◌,
}
use ai_garage.Int.{ℤ}
use ai_garage.Json.{Json}
use ai_garage.Plugins.Storage.Statements.{
  foreign_keys_sql, create_conversations_sql, index_conversations_sql, create_messages_sql,
  index_messages_sql, index_vectors_sql, insert_conversation_sql, select_conversation_sql,
  list_conversations_sql, update_title_sql, delete_conversation_sql, insert_message_sql,
  touch_conversation_sql, select_messages_sql,
}
use ai_garage.Plugins.Storage.Rows.{
  Role, as_str, Conversation, StoredMessage, SimilarityMatch, StorageError, dimension_mismatch,
  SqlValue, sql_text, sql_int, nullable, nullable_int, Libsql, db, conversation_row, message_row,
  match_row, collect,
}

abbrev line_end : Text
line_end = 10 ∷ []

unfoldable pub comma_separated : List Text → Text
comma_separated [] = []
comma_separated (t ∷ []) = t
comma_separated (t ∷ u ∷ ts) = t ++ (text ", " ++ comma_separated (u ∷ ts))

unfoldable pub show_all : {F : Type 0} → (F → Text) → List F → List Text
show_all show_real [] = []
show_all show_real (x ∷ xs) = show_real x ∷ show_all show_real xs

unfoldable pub format_vector_sql : {F : Type 0} → (F → Text) → List F → Text
unfolding comma_separated show_all
format_vector_sql show_real vec = text "[" ++ comma_separated (show_all show_real vec) ++ text "]"

unfoldable pub vector_table_sql : ℕ → Text
vector_table_sql dimensions =
    text "CREATE TABLE IF NOT EXISTS message_embeddings ("
    ++ line_end
    ++ text "                message_id TEXT PRIMARY KEY REFERENCES messages(id) ON DELETE CASCADE,"
    ++ line_end
    ++ text "                conversation_id TEXT NOT NULL,"
    ++ line_end
    ++ text "                embedding F32_BLOB("
    ++ show_nat dimensions
    ++ text ")"
    ++ line_end
    ++ text "            );"

-- The identifiers and the vector are put into the text of the statement.
unfoldable pub insert_vec_sql : Text → Text → Text → Text
insert_vec_sql id conversation_id vec_str =
    text "INSERT INTO message_embeddings (message_id, conversation_id, embedding)"
    ++ line_end
    ++ text "                 VALUES ('"
    ++ id
    ++ text "', '"
    ++ conversation_id
    ++ text "', vector('"
    ++ vec_str
    ++ text "'));"

unfoldable pub conversation_filter : Option Text → Text
conversation_filter none = []
conversation_filter (some conv_id) =
    text "                 WHERE me.conversation_id = '" ++ conv_id ++ text "'" ++ line_end

unfoldable pub similar_sql : Text → ℕ → Option Text → Text
unfolding conversation_filter
similar_sql vec_str top_k filter =
    text
      "SELECT m.id, m.conversation_id, m.role, m.content, m.token_count, m.created_at, m.wal_seq, m.metadata,"
    ++ line_end
    ++ text "                        vector_distance_cos(me.embedding, vector('"
    ++ vec_str
    ++ text "')) AS distance"
    ++ line_end
    ++ text "                 FROM vector_top_k('idx_message_embeddings_vec', vector('"
    ++ vec_str
    ++ text "'), "
    ++ show_nat top_k
    ++ text ") AS top"
    ++ line_end
    ++ text "                 JOIN message_embeddings me ON me.rowid = top.id"
    ++ line_end
    ++ text "                 JOIN messages m ON m.id = me.message_id"
    ++ line_end
    ++ conversation_filter filter
    ++ text "                 ORDER BY distance ASC;"

module _ (j : Json) {D F : Type 0} (sql : Libsql D F) (show_real : F → Text)
    (parse : Text → Result Text j.Value) (now : ℤ) where
  -- A step on the database.
  abbrev pub Op : Type 0 → Type 0
  Op A = D → Result StorageError A × D

  unfoldable pub next :
      {A B : Type 0} → Result StorageError A × D → (A → Op B) → Result StorageError B × D
  next (err e, d) f = (err e, d)
  next (ok a, d) f = f a d

  -- `conn.execute(..).await?`
  unfoldable pub execute : Text → List SqlValue → Op ℕ
  execute statement params d = let (res, d') = sql.execute statement params d in (db res, d')

  unfoldable pub run_all : List Text → Op (Unit {0})
  unfolding execute next
  run_all [] d = (ok tt, d)
  run_all (statement ∷ rest) d = next (execute statement [] d) (λ n. run_all rest)

  -- The tables and their indices.
  unfoldable pub create_tables : ℕ → Op (Unit {0})
  unfolding run_all vector_table_sql
  create_tables vector_dimensions = run_all (
      foreign_keys_sql
      ∷ create_conversations_sql
      ∷ index_conversations_sql
      ∷ create_messages_sql
      ∷ index_messages_sql
      ∷ vector_table_sql vector_dimensions
      ∷ index_vectors_sql
      ∷ [])

  unfoldable pub create_conversation :
      Text → Text → Text → Option Text → Option Text → Option j.Value → Op (Conversation j.Value)
  unfolding execute next nullable
  create_conversation id title model_id system_prompt chassis_session_id metadata d =
      let meta_val = unwrap_or metadata (j.object []) in
      next
        (execute insert_conversation_sql
          (sql_text id
            ∷ sql_text title
            ∷ sql_text model_id
            ∷ nullable system_prompt
            ∷ sql_int now
            ∷ sql_int now
            ∷ nullable chassis_session_id
            ∷ sql_text (j.to_string meta_val)
            ∷ [])
          d)
        (λ n d'. (
          ok (record {
            id = id;
            title = title;
            model_id = model_id;
            system_prompt = system_prompt;
            created_at = now;
            updated_at = now;
            chassis_session_id = chassis_session_id;
            metadata = meta_val;
          }),
          d',
        ))

  -- The first row, if there is one.
  unfoldable pub first_row :
      {A : Type 0}
      → (sql.Row → Result StorageError A)
      → List (Result Text sql.Row)
      → Result StorageError (Option A)
  first_row f [] = ok none
  first_row f (row ∷ rest) = do r ← db row; a ← f r; ok (some a)

  unfoldable pub get_conversation : Text → D → Result StorageError (Option (Conversation j.Value))
  unfolding conversation_row first_row
  get_conversation id d = do
    rows ← db (sql.query select_conversation_sql (sql_text id ∷ []) d)
    first_row (conversation_row j sql parse) rows

  -- `limit` and `offset` are numbers of 32 bits.
  unfoldable pub list_conversations : ℤ → ℤ → D → Result StorageError (List (Conversation j.Value))
  unfolding conversation_row collect
  list_conversations limit offset d = do
    rows ← db (sql.query list_conversations_sql (sql_int limit ∷ sql_int offset ∷ []) d)
    collect j sql (conversation_row j sql parse) rows

  unfoldable pub changed : Result StorageError ℕ × D → Result StorageError Bool × D
  changed (err e, d) = (err e, d)
  changed (ok affected, d) = (ok (ltb 0 affected), d)

  unfoldable pub update_conversation_title : Text → Text → Op Bool
  unfolding execute changed
  update_conversation_title id new_title d =
      changed (execute update_title_sql (sql_text new_title ∷ sql_int now ∷ sql_text id ∷ []) d)

  unfoldable pub delete_conversation : Text → Op Bool
  unfolding execute changed
  delete_conversation id d = changed (execute delete_conversation_sql (sql_text id ∷ []) d)

  -- The vector of a message, where there is one.
  unfoldable pub insert_embedding : Text → Text → Option (List F) → Op ℕ
  unfolding execute insert_vec_sql format_vector_sql
  insert_embedding id conversation_id none d = (ok 0, d)
  insert_embedding id conversation_id (some emb) d =
      execute (insert_vec_sql id conversation_id (format_vector_sql show_real emb)) [] d

  unfoldable pub insert_message :
      Text
      → Text
      → Role
      → Text
      → ℤ
      → Option ℤ
      → j.Value
      → Option (List F)
      → Op (StoredMessage j.Value)
  unfolding execute next nullable_int insert_embedding as_str
  insert_message id conversation_id role content token_count wal_seq meta_val embedding d =
      next
        (execute insert_message_sql
          (sql_text id
            ∷ sql_text conversation_id
            ∷ sql_text (as_str role)
            ∷ sql_text content
            ∷ sql_int token_count
            ∷ sql_int now
            ∷ nullable_int wal_seq
            ∷ sql_text (j.to_string meta_val)
            ∷ [])
          d)
        (λ n d1. next (insert_embedding id conversation_id embedding d1) (λ m d2.
          next (execute touch_conversation_sql (sql_int now ∷ sql_text conversation_id ∷ []) d2)
            (λ k d3. (
              ok (record {
                id = id;
                conversation_id = conversation_id;
                role = role;
                content = content;
                token_count = token_count;
                created_at = now;
                wal_seq = wal_seq;
                metadata = meta_val;
              }),
              d3,
            ))))

  -- Whether a vector has the dimension of the store; there may be none.
  unfoldable pub check_dimension : ℕ → Option (List F) → Result StorageError (Unit {0})
  check_dimension dimensions none = ok tt
  check_dimension dimensions (some emb) =
      if not (length emb == dimensions)
      then err (dimension_mismatch dimensions (length emb))
      else ok tt

  unfoldable pub append_message :
      ℕ
      → Text
      → Text
      → Role
      → Text
      → ℤ
      → Option ℤ
      → Option j.Value
      → Option (List F)
      → Op (StoredMessage j.Value)
  unfolding check_dimension insert_message next
  append_message dimensions id conversation_id role content token_count wal_seq metadata embedding
        d =
      next (check_dimension dimensions embedding, d)
        (λ u.
          insert_message id conversation_id role content token_count wal_seq
            (unwrap_or metadata (j.object [])) embedding)

  unfoldable pub get_messages :
      Text → ℤ → ℤ → D → Result StorageError (List (StoredMessage j.Value))
  unfolding message_row collect
  get_messages conversation_id limit offset d = do
    rows ← db (
        sql.query select_messages_sql
          (sql_text conversation_id ∷ sql_int limit ∷ sql_int offset ∷ []) d)
    collect j sql (message_row j sql parse) rows

  unfoldable pub search_similar_messages :
      ℕ → List F → ℕ → Option Text → D → Result StorageError (List (SimilarityMatch j.Value F))
  unfolding check_dimension similar_sql format_vector_sql match_row collect
  search_similar_messages dimensions query_vector top_k filter d = do
    u ← check_dimension dimensions (some query_vector)
    rows ← db (sql.query (similar_sql (format_vector_sql show_real query_vector) top_k filter) [] d)
    collect j sql (match_row j sql parse) rows
