-- ===== src/Plugins/WebSearch/Decoding.antt =====
-- An encoded query is decoded by the rules for query strings to its bytes.
use ai_garage.Common.{
  ℕ, ◌+◌, ◌*◌, ◌-◌, ◌/◌, ◌%◌, ◌==◌, ◌<◌, ltb, leb, ◌≡◌, inl, inr, refl, ap, sym, subst, ==_iff,
  ltb→lt, ◌∙◌, true, false, ◌&&◌, List, [], ◌∷◌, ◌++◌, Option, none, some, Text, utf8_char, utf8,
  All, if◌then◌else◌, Bool-cases, arith,
}
use ai_garage.Plugins.WebSearch.{is_unreserved, hex_upper, encode_byte, encode_bytes, urlencoding}

-- The value of an upper-case hexadecimal digit.
unfoldable pub digit_value : ℕ → Option ℕ
digit_value d =
    if leb 48 d && leb d 57
    then some (d - 48)
    else if leb 65 d && leb d 70
    then some (d - 55)
    else none

unfoldable pub prefixed : ℕ → Option (List ℕ) → Option (List ℕ)
prefixed b none = none
prefixed b (some bs) = some (b ∷ bs)

unfoldable pub escaped : Option ℕ → Option ℕ → Option (List ℕ) → Option (List ℕ)
escaped (some h) (some l) rest = prefixed (h * 16 + l) rest
escaped _ _ rest = none

-- The decoding of application/x-www-form-urlencoded: "+" is a space, "%" and two digits are a byte,
-- any other byte stands for itself.
unfoldable pub form_decode : Text → Option (List ℕ)
form_decode [] = some []
form_decode (c ∷ []) =
    if c == b'%' then none else if c == b'+' then some (32 ∷ []) else some (c ∷ [])
form_decode (c ∷ h ∷ []) =
    let rest = form_decode (h ∷ []) in
    if c == b'%' then none else prefixed (if c == b'+' then 32 else c) rest
form_decode (c ∷ h ∷ l ∷ s) =
    let rest = form_decode (h ∷ l ∷ s) in
    let after = form_decode s in
    if c == b'%'
    then escaped (digit_value h) (digit_value l) after
    else prefixed (if c == b'+' then 32 else c) rest

form_decode-plain :
    (c : ℕ) (s : Text)
    → (c == b'%') ≡ false
    → form_decode (c ∷ s) ≡ prefixed (if c == b'+' then 32 else c) (form_decode s)
unfolding form_decode prefixed
form_decode-plain c [] h = ground arith
form_decode-plain c (x ∷ []) h = rw h refl
form_decode-plain c (x ∷ y ∷ s) h = rw h refl

form_decode-escape :
    (h l : ℕ) (s : Text)
    → form_decode (b'%' ∷ h ∷ l ∷ s) ≡ escaped (digit_value h) (digit_value l) (form_decode s)
unfolding form_decode
form_decode-escape h l s = refl

digit_value-hex_upper : (d : ℕ) → d < 16 → digit_value (hex_upper d) ≡ some d
unfolding digit_value hex_upper
digit_value-hex_upper d h = ground arith

unreserved-plain : (b : ℕ) → is_unreserved b ≡ true → ((b == b'%') ≡ false) × ((b == b'+') ≡ false)
unfolding is_unreserved
unreserved-plain b h = ground arith

unreserved-byte : (b : ℕ) → is_unreserved b ≡ true → encode_byte b ≡ b ∷ []
unfolding encode_byte
unreserved-byte b h = rw (encode_byte, h) refl

space-byte : encode_byte 32 ≡ b'+' ∷ []
unfolding encode_byte
space-byte = refl

escaped-byte :
    (b : ℕ)
    → is_unreserved b ≡ false
    → (b == 32) ≡ false
    → encode_byte b ≡ b'%' ∷ hex_upper (b / 16) ∷ hex_upper (b % 16) ∷ []
unfolding encode_byte
escaped-byte b h k = rw (encode_byte, h, k) refl

escaped-digits :
    (b : ℕ) (rest : Option (List ℕ))
    → b < 256
    → escaped (digit_value (hex_upper (b / 16))) (digit_value (hex_upper (b % 16))) rest
      ≡ prefixed b rest
unfolding escaped
escaped-digits b rest h =
    rw
      (
        digit_value-hex_upper (b / 16) (omega (arith, h)),
        digit_value-hex_upper (b % 16) (omega (arith, h)),
      )
      (ap (λ (n : ℕ). prefixed n rest) (omega arith))

plain-one :
    (b : ℕ) (s : Text) → is_unreserved b ≡ true → form_decode (b ∷ s) ≡ prefixed b (form_decode s)
plain-one b s h =
    let (percent, plus) = unreserved-plain b h in
    form_decode-plain b s percent ∙ ap (λ (n : ℕ). prefixed n (form_decode s)) (rw plus refl)

decode-encode_byte :
    (b : ℕ) (s : Text) → b < 256 → form_decode (encode_byte b ++ s) ≡ prefixed b (form_decode s)
decode-encode_byte b s h = elim (Bool-cases (is_unreserved b)) [
  | inl e ↦ rw (unreserved-byte b e) (plain-one b s e)
  | inr e ↦ elim (Bool-cases (b == 32)) [
    | inr f ↦ rw (escaped-byte b e f) (
        form_decode-escape (hex_upper (b / 16)) (hex_upper (b % 16)) s
        ∙ escaped-digits b (form_decode s) h)
    | inl f ↦
        subst (λ (n : ℕ). form_decode (encode_byte n ++ s) ≡ prefixed n (form_decode s))
          (sym ((==_iff b 32).0 f)) (rw space-byte (form_decode-plain b'+' s refl))
  ]
]

decode-encode_bytes :
    (bs : List ℕ) → All (λ b. b < 256) bs → form_decode (encode_bytes bs) ≡ some bs
unfolding encode_bytes form_decode prefixed
decode-encode_bytes [] h = refl
decode-encode_bytes (b ∷ bs) (h, hs) =
    rw (decode-encode_byte b (encode_bytes bs) h, decode-encode_bytes bs hs) refl

-- A character of Unicode has bytes.
utf8_char-bytes : (c : ℕ) → c < 1114112 → All (λ b. b < 256) (utf8_char c)
unfolding utf8_char
utf8_char-bytes c h = elim (Bool-cases (ltb c 128)) [
  | inl e ↦ rw (utf8_char, e) (omega (arith, ltb→lt c 128 e), tt)
  | inr e ↦ elim (Bool-cases (ltb c 2048)) [
    | inl f ↦ rw (utf8_char, e, f) (omega (arith, ltb→lt c 2048 f), (omega arith, tt))
    | inr f ↦ elim (Bool-cases (ltb c 65536)) [
      | inl g ↦
          rw (utf8_char, e, f, g)
            (omega (arith, ltb→lt c 65536 g), (omega arith, (omega arith, tt)))
      | inr g ↦
          rw (utf8_char, e, f, g)
            (omega (arith, h), (omega arith, (omega arith, (omega arith, tt))))
    ]
  ]
]

All-append : (P : ℕ → Type 0) (xs ys : List ℕ) → All P xs → All P ys → All P (xs ++ ys)
All-append P [] ys f g = g
All-append P (x ∷ xs) ys (f, fs) g = (f, All-append P xs ys fs g)

utf8-bytes : (s : Text) → All (λ c. c < 1114112) s → All (λ b. b < 256) (utf8 s)
unfolding utf8
utf8-bytes [] h = tt
utf8-bytes (c ∷ s) (h, hs) =
    All-append (λ b. b < 256) (utf8_char c) (utf8 s) (utf8_char-bytes c h) (utf8-bytes s hs)

-- An encoded query is decoded to the bytes of the query, where its characters are those of Unicode,
-- below 1114112.
pub form_decode-urlencoding :
    (s : Text) → All (λ c. c < 1114112) s → form_decode (urlencoding s) ≡ some (utf8 s)
unfolding urlencoding
form_decode-urlencoding s h = decode-encode_bytes (utf8 s) (utf8-bytes s h)
