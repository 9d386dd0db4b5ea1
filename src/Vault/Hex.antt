-- ===== src/Vault/Hex.antt =====
-- crates/chassis-core/src/vault.rs: hexadecimal text read back.
use ai_garage.Common.{
  ℕ, ◌*◌, ◌/◌, ◌%◌, ◌≡◌, refl, Bool, true, false, ltb, ◌==◌, List, [], ◌∷◌, length, all, some, ok,
  arith,
}
use ai_garage.Error.{Fault}
use ai_garage.Vault.{
  hex_char, to_hex, hex_digit, radix_digits, from_radix, inside_char, from_pairs, from_hex,
}

-- Every number of the list is a byte.
abbrev pub are_bytes : List ℕ → Bool
are_bytes bs = all (λ b. ltb b 256) bs

hex_digit-hex_char : (d : ℕ) → ltb d 16 ≡ true → hex_digit (hex_char d) ≡ some d
unfolding hex_digit hex_char
hex_digit-hex_char d h = ground arith

hex_char-plus : (d : ℕ) → (hex_char d == 43) ≡ false
unfolding hex_char
hex_char-plus d = ground arith

from_radix-hex_char :
    (b : ℕ) → ltb b 256 ≡ true → from_radix (hex_char (b / 16)) (hex_char (b % 16)) ≡ some b
unfolding from_radix radix_digits
from_radix-hex_char b h =
    ground (arith, hex_char-plus (b / 16), hex_digit-hex_char (b / 16), hex_digit-hex_char (b % 16))

inside-to_hex : (bs : List ℕ) → are_bytes bs ≡ true → inside_char (to_hex bs) ≡ false
unfolding inside_char to_hex hex_char
inside-to_hex [] h = refl
inside-to_hex (b ∷ bs) h = ground arith

length-to_hex : (bs : List ℕ) → length (to_hex bs) ≡ 2 * length bs
unfolding to_hex
length-to_hex [] = ground arith
length-to_hex (b ∷ bs) = ground (arith, length-to_hex bs)

pairs-to_hex :
    (bad : Fault) (bs : List ℕ) → are_bytes bs ≡ true → from_pairs bad (to_hex bs) ≡ ok bs
unfolding to_hex from_pairs
pairs-to_hex bad [] h = refl
pairs-to_hex bad (b ∷ bs) h =
    ground (arith, inside-to_hex bs, from_radix-hex_char b, pairs-to_hex bad bs)

-- The hexadecimal text of bytes is read back as those bytes.
pub from_hex-to_hex :
    (bad : Fault) (bs : List ℕ) → are_bytes bs ≡ true → from_hex bad (to_hex bs) ≡ ok bs
unfolding from_hex
from_hex-to_hex bad bs h = ground (arith, length-to_hex bs, pairs-to_hex bad bs h)
