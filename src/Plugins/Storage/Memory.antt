-- ===== src/Plugins/Storage/Memory.antt =====
-- The statement that stores a vector, and the vectors that are refused.
use mathlib.Core.List.{append_assoc}
use ai_garage.Common.{
  ℕ, ◌≡◌, ◌≢◌, ◌==◌, inl, inr, refl, ap, List, [], ◌∷◌, ◌++◌, Option, some, Text, text, length,
  Result, err, Bool-cases, ==_iff,
}
use ai_garage.Int.{ℤ}
use ai_garage.Json.{Json}
use ai_garage.Plugins.Storage.{
  Role, dimension_mismatch, Libsql, insert_vec_sql, next, check_dimension, append_message,
}

shift : (p a s b c : Text) → ((p ++ a) ++ s) ++ (b ++ (s ++ c)) ≡ ((p ++ (a ++ (s ++ b))) ++ s) ++ c
shift p a s b c =
    rw
      (
        append_assoc (p ++ a) s (b ++ (s ++ c)),
        append_assoc p a (s ++ (b ++ (s ++ c))),
        append_assoc (p ++ (a ++ (s ++ b))) s c,
        append_assoc p (a ++ (s ++ b)) (s ++ c),
        append_assoc a (s ++ b) (s ++ c),
        append_assoc s b (s ++ c),
      )
      refl

-- Different identifiers can give one and the same statement, as they are put into its text: the
-- statement that stores a vector does not tell a message `a` of the conversation `b', 'c` from a message
-- `a', 'b` of the conversation `c`.
pub insert_vec_sql-ambiguous :
    (a b c vec_str : Text)
    → insert_vec_sql a (b ++ (text "', '" ++ c)) vec_str
      ≡ insert_vec_sql (a ++ (text "', '" ++ b)) c vec_str
unfolding insert_vec_sql
insert_vec_sql-ambiguous a b c vec_str =
    ap (λ (t : Text). t ++ text "', vector('" ++ vec_str ++ text "'));")
      (shift
        (text "INSERT INTO message_embeddings (message_id, conversation_id, embedding)"
          ++ 10 ∷ []
          ++ text "                 VALUES ('")
        a (text "', '") b c)

module _ (j : Json) {D F : Type 0} (sql : Libsql D F) (show_real : F → Text)
    (parse : Text → Result Text j.Value) (now : ℤ) where
  -- A message with a vector of another dimension is refused, and the database stays as it was.
  pub append_message-dimension :
      (dimensions : ℕ) (id conversation_id content : Text) (role : Role) (token_count : ℤ)
      (wal_seq : Option ℤ) (metadata : Option j.Value) (emb : List F) (d : D)
      → length emb ≢ dimensions
      → append_message j sql show_real parse now dimensions id conversation_id role content
          token_count wal_seq metadata
          (some emb)
          d
        ≡ (err (dimension_mismatch dimensions (length emb)), d)
  unfolding append_message check_dimension next
  append_message-dimension dimensions id conversation_id content role token_count wal_seq metadata
        emb d h =
      elim (Bool-cases (length emb == dimensions)) [
        | inl e ↦ absurd (h ((==_iff (length emb) dimensions).0 e))
        | inr e ↦ rw (append_message, e) refl
      ]
