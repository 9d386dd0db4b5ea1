-- ===== src/Plugins/Storage/Rows.antt =====
-- crates/plugins/chassis-storage-sqlite/src: conversations, messages and the interface of libSQL. The
-- database is a parameter: a state `D`, statements that change it and queries that read it.
use ai_garage.Common.{
  ℕ, List, [], ◌∷◌, ◌++◌, Option, none, some, Text, text, text_eq, to_lowercase, show_nat, Result,
  ok, err, ◌>>=◌, if◌then◌else◌,
}
use ai_garage.Int.{ℤ}
use ai_garage.Json.{Json}

pub data Role : Type 0 where
  user assistant system tool : Role

unfoldable pub as_str : Role → Text
as_str user = text "user"
as_str assistant = text "assistant"
as_str system = text "system"
as_str tool = text "tool"

unfoldable pub from_str : Text → Result Text Role
from_str s =
    let lowered = to_lowercase s in
    if text_eq lowered (text "user")
    then ok user
    else if text_eq lowered (text "assistant")
    then ok assistant
    else if text_eq lowered (text "system")
    then ok system
    else if text_eq lowered (text "tool")
    then ok tool
    else err (text "Unknown role: " ++ lowered)

pub record Conversation (V : Type 0) : Type 0 where
  pub id : Text
  pub title : Text
  pub model_id : Text
  pub system_prompt : Option Text
  pub created_at : ℤ
  pub updated_at : ℤ
  pub chassis_session_id : Option Text
  pub metadata : V

pub record StoredMessage (V : Type 0) : Type 0 where
  pub id : Text
  pub conversation_id : Text
  pub role : Role
  pub content : Text
  pub token_count : ℤ
  pub created_at : ℤ
  pub wal_seq : Option ℤ
  pub metadata : V

pub record SimilarityMatch (V F : Type 0) : Type 0 where
  pub matched : StoredMessage V
  pub distance : F

pub data StorageError : Type 0 where
  database serialization not_found : Text → StorageError
  dimension_mismatch : ℕ → ℕ → StorageError

unfoldable pub show_error : StorageError → Text
show_error (database e) = text "Database error: " ++ e
show_error (serialization e) = text "Serialization error: " ++ e
show_error (not_found e) = text "Entity not found: " ++ e
show_error (dimension_mismatch expected got) =
    text "Vector dimension mismatch: expected "
    ++ show_nat expected
    ++ text ", got "
    ++ show_nat got

-- A parameter of a statement.
pub data SqlValue : Type 0 where
  sql_text : Text → SqlValue
  sql_int : ℤ → SqlValue
  sql_null : SqlValue

unfoldable pub nullable : Option Text → SqlValue
nullable none = sql_null
nullable (some t) = sql_text t

unfoldable pub nullable_int : Option ℤ → SqlValue
nullable_int none = sql_null
nullable_int (some n) = sql_int n

-- `conn.execute` returns the number of changed rows; `rows.next()` and `row.get(i)` can fail.
pub record Libsql (D F : Type 0) : Type 1 where
  pub Row : Type 0
  pub execute : Text → List SqlValue → D → Result Text ℕ × D
  pub query : Text → List SqlValue → D → Result Text (List (Result Text Row))
  pub get_text : Row → ℕ → Result Text Text
  pub get_text_option : Row → ℕ → Result Text (Option Text)
  pub get_int : Row → ℕ → Result Text ℤ
  pub get_int_option : Row → ℕ → Result Text (Option ℤ)
  pub get_real : Row → ℕ → Result Text F

-- An error of the database as one of the store.
abbrev pub db : {A : Type 0} → Result Text A → Result StorageError A
db (ok a) = ok a
db (err e) = err (database e)

module _ (j : Json) {D F : Type 0} (sql : Libsql D F) where
  -- `serde_json::from_str(&meta_str)?`, `parse` with the text of its error
  unfoldable pub metadata_of : (Text → Result Text j.Value) → Text → Result StorageError j.Value
  metadata_of parse meta_str = elim (parse meta_str) [ ok v ↦ ok v | err e ↦ err (serialization e) ]

  unfoldable pub conversation_row :
      (Text → Result Text j.Value) → sql.Row → Result StorageError (Conversation j.Value)
  unfolding metadata_of
  conversation_row parse row = do
    meta_str ← db (sql.get_text row 7)
    id ← db (sql.get_text row 0)
    title ← db (sql.get_text row 1)
    model_id ← db (sql.get_text row 2)
    system_prompt ← db (sql.get_text_option row 3)
    created_at ← db (sql.get_int row 4)
    updated_at ← db (sql.get_int row 5)
    chassis_session_id ← db (sql.get_text_option row 6)
    metadata ← metadata_of parse meta_str
    ok (record {
      id = id;
      title = title;
      model_id = model_id;
      system_prompt = system_prompt;
      created_at = created_at;
      updated_at = updated_at;
      chassis_session_id = chassis_session_id;
      metadata = metadata;
    })

  -- `Role::from_str(&role_str).unwrap_or(Role::User)`
  unfoldable pub role_or_user : Text → Role
  unfolding from_str
  role_or_user role_str = elim (from_str role_str) [ ok role ↦ role | err e ↦ user ]

  -- The message of a row, its role and its metadata already read.
  unfoldable pub message_fields :
      (Text → Result Text j.Value)
      → sql.Row
      → Role
      → Text
      → Result StorageError (StoredMessage j.Value)
  unfolding metadata_of
  message_fields parse row role meta_str = do
    id ← db (sql.get_text row 0)
    conversation_id ← db (sql.get_text row 1)
    content ← db (sql.get_text row 3)
    token_count ← db (sql.get_int row 4)
    created_at ← db (sql.get_int row 5)
    wal_seq ← db (sql.get_int_option row 6)
    metadata ← metadata_of parse meta_str
    ok (record {
      id = id;
      conversation_id = conversation_id;
      role = role;
      content = content;
      token_count = token_count;
      created_at = created_at;
      wal_seq = wal_seq;
      metadata = metadata;
    })

  unfoldable pub message_row :
      (Text → Result Text j.Value) → sql.Row → Result StorageError (StoredMessage j.Value)
  unfolding role_or_user message_fields
  message_row parse row = do
    role_str ← db (sql.get_text row 2)
    meta_str ← db (sql.get_text row 7)
    message_fields parse row (role_or_user role_str) meta_str

  unfoldable pub match_row :
      (Text → Result Text j.Value) → sql.Row → Result StorageError (SimilarityMatch j.Value F)
  unfolding role_or_user message_fields
  match_row parse row = do
    role_str ← db (sql.get_text row 2)
    meta_str ← db (sql.get_text row 7)
    distance ← db (sql.get_real row 8)
    message ← message_fields parse row (role_or_user role_str) meta_str
    ok (record { matched = message; distance = distance })

  -- `while let Some(row) = rows.next().await? { list.push(..) }`
  unfoldable pub collect :
      {A : Type 0}
      → (sql.Row → Result StorageError A)
      → List (Result Text sql.Row)
      → Result StorageError (List A)
  collect f [] = ok []
  collect f (next ∷ rest) = do row ← db next; a ← f row; more ← collect f rest; ok (a ∷ more)
