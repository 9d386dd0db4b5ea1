-- ===== src/Plugins/WebSearch/Encoding.antt =====
-- crates/plugins/chassis-tools-websearch/src/search.rs: queries in URLs.
use ai_garage.Common.{
  ℕ, ◌+◌, ◌/◌, ◌%◌, ◌==◌, ltb, leb, Bool, ◌&&◌, ◌||◌, List, [], ◌∷◌, ◌++◌, Text, utf8,
  if◌then◌else◌,
}

-- `b'a'..=b'z' | b'A'..=b'Z' | b'0'..=b'9' | b'-' | b'_' | b'.' | b'~'`
unfoldable pub is_unreserved : ℕ → Bool
is_unreserved b =
    (leb b'a' b && leb b b'z')
    || (leb b'A' b && leb b b'Z')
    || (leb b'0' b && leb b b'9')
    || b == b'-'
    || b == b'_'
    || b == b'.'
    || b == b'~'

-- A digit of `{:02X}`
unfoldable pub hex_upper : ℕ → ℕ
hex_upper d = if ltb d 10 then 48 + d else 55 + d

unfoldable pub encode_byte : ℕ → Text
unfolding is_unreserved hex_upper
encode_byte b =
    if is_unreserved b
    then b ∷ []
    else if b == 32
    then b'+' ∷ []
    else b'%' ∷ hex_upper (b / 16) ∷ hex_upper (b % 16) ∷ []

unfoldable pub encode_bytes : List ℕ → Text
unfolding encode_byte
encode_bytes [] = []
encode_bytes (b ∷ bs) = encode_byte b ++ encode_bytes bs

unfoldable pub urlencoding : Text → Text
unfolding encode_bytes utf8
urlencoding input = encode_bytes (utf8 input)
