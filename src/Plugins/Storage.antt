-- ===== src/Plugins/Storage.antt =====
-- crates/plugins/chassis-storage-sqlite/src: conversations and messages in a libSQL database.
mod Rows
mod Statements
mod Store
mod Requests
pub mod Memory
pub use Rows.*
pub use Statements.*
pub use Store.*
pub use Requests.*
unfoldable pub use Rows.{
  as_str, from_str, show_error, nullable, nullable_int, metadata_of, conversation_row, role_or_user,
  message_fields, message_row, match_row, collect,
}
unfoldable pub use Store.{
  comma_separated, show_all, format_vector_sql, vector_table_sql, insert_vec_sql,
  conversation_filter, similar_sql, next, execute, run_all, create_tables, create_conversation,
  first_row, get_conversation, list_conversations, changed, update_conversation_title,
  delete_conversation, insert_embedding, insert_message, check_dimension, append_message,
  get_messages, search_similar_messages,
}
unfoldable pub use Requests.{
  storage_manifest, db_path_of, narrow, filter_map, make_directory, connected, prepared, open_store,
  get_or_init_store, reply_with, reply_changed, reply_found, reply_updated, call_create, append_as,
  call_append, call_history, call_similar, call_list, call_store, serve_opened, handle_request,
}
