-- ===== src/Plugins/Storage/Statements.antt =====
-- crates/plugins/chassis-storage-sqlite/src/lib.rs: the statements.
use ai_garage.Common.{◌∷◌, [], ◌++◌, Text, text}

abbrev newline : Text
newline = 10 ∷ []

abbrev pub foreign_keys_sql : Text
foreign_keys_sql = text "PRAGMA foreign_keys = ON;"

abbrev pub create_conversations_sql : Text
create_conversations_sql =
    text "CREATE TABLE IF NOT EXISTS conversations ("
    ++ newline
    ++ text "                id TEXT PRIMARY KEY,"
    ++ newline
    ++ text "                title TEXT NOT NULL,"
    ++ newline
    ++ text "                model_id TEXT NOT NULL,"
    ++ newline
    ++ text "                system_prompt TEXT,"
    ++ newline
    ++ text "                created_at INTEGER NOT NULL,"
    ++ newline
    ++ text "                updated_at INTEGER NOT NULL,"
    ++ newline
    ++ text "                chassis_session_id TEXT,"
    ++ newline
    ++ text "                metadata JSON NOT NULL DEFAULT '{}'"
    ++ newline
    ++ text "            );"

abbrev pub index_conversations_sql : Text
index_conversations_sql =
    text "CREATE INDEX IF NOT EXISTS idx_conversations_updated "
    ++ newline
    ++ text "             ON conversations(updated_at DESC);"

abbrev pub create_messages_sql : Text
create_messages_sql =
    text "CREATE TABLE IF NOT EXISTS messages ("
    ++ newline
    ++ text "                id TEXT PRIMARY KEY,"
    ++ newline
    ++ text
        "                conversation_id TEXT NOT NULL REFERENCES conversations(id) ON DELETE CASCADE,"
    ++ newline
    ++ text "                role TEXT NOT NULL,"
    ++ newline
    ++ text "                content TEXT NOT NULL,"
    ++ newline
    ++ text "                token_count INTEGER NOT NULL DEFAULT 0,"
    ++ newline
    ++ text "                created_at INTEGER NOT NULL,"
    ++ newline
    ++ text "                wal_seq INTEGER,"
    ++ newline
    ++ text "                metadata JSON NOT NULL DEFAULT '{}'"
    ++ newline
    ++ text "            );"

abbrev pub index_messages_sql : Text
index_messages_sql =
    text "CREATE INDEX IF NOT EXISTS idx_messages_conv_created "
    ++ newline
    ++ text "             ON messages(conversation_id, created_at ASC);"

abbrev pub index_vectors_sql : Text
index_vectors_sql =
    text "CREATE INDEX IF NOT EXISTS idx_message_embeddings_vec "
    ++ newline
    ++ text "             ON message_embeddings (libsql_vector_idx(embedding, 'metric=cosine'));"

abbrev pub insert_conversation_sql : Text
insert_conversation_sql =
    text
      "INSERT INTO conversations (id, title, model_id, system_prompt, created_at, updated_at, chassis_session_id, metadata)"
    ++ newline
    ++ text "                 VALUES (?1, ?2, ?3, ?4, ?5, ?6, ?7, ?8);"

abbrev pub select_conversation_sql : Text
select_conversation_sql =
    text
      "SELECT id, title, model_id, system_prompt, created_at, updated_at, chassis_session_id, metadata"
    ++ newline
    ++ text "                 FROM conversations WHERE id = ?1;"

abbrev pub list_conversations_sql : Text
list_conversations_sql =
    text
      "SELECT id, title, model_id, system_prompt, created_at, updated_at, chassis_session_id, metadata"
    ++ newline
    ++ text "                 FROM conversations ORDER BY updated_at DESC LIMIT ?1 OFFSET ?2;"

abbrev pub update_title_sql : Text
update_title_sql = text "UPDATE conversations SET title = ?1, updated_at = ?2 WHERE id = ?3;"

abbrev pub delete_conversation_sql : Text
delete_conversation_sql = text "DELETE FROM conversations WHERE id = ?1;"

abbrev pub insert_message_sql : Text
insert_message_sql =
    text
      "INSERT INTO messages (id, conversation_id, role, content, token_count, created_at, wal_seq, metadata)"
    ++ newline
    ++ text "                 VALUES (?1, ?2, ?3, ?4, ?5, ?6, ?7, ?8);"

abbrev pub touch_conversation_sql : Text
touch_conversation_sql = text "UPDATE conversations SET updated_at = ?1 WHERE id = ?2;"

abbrev pub select_messages_sql : Text
select_messages_sql =
    text "SELECT id, conversation_id, role, content, token_count, created_at, wal_seq, metadata"
    ++ newline
    ++ text
        "                 FROM messages WHERE conversation_id = ?1 ORDER BY created_at ASC LIMIT ?2 OFFSET ?3;"
