-- ===== src/Http/Base64/RoundTrip.antt =====
-- base64_encode() of src/http.c against a decoder.
use nsproxy.Common.{
  ℕ, ◌+◌, ◌-◌, ◌*◌, ◌/◌, ◌%◌, ◌^◌, ◌<◌, ◌≡◌, refl, ap, ◌∙◌, some, List, [], ◌∷◌, ◌++◌, arith,
  ltb-false, length, All, length-append,
}
use nsproxy.Http.Base64.{base64_char, base64_group, base64_loop, base64_encode}
use nsproxy.Http.Base64.Group.{
  decode_group, decode, group_three, decode_three, decode_two, decode_one, group_two, group_one,
}

-- Four characters in front of an encoding that decodes.
decode_step :
    (p q r s : ℕ) (bytes more text rest : List ℕ)
    → text ≡ p ∷ q ∷ r ∷ s ∷ []
    → decode_group p q r s ≡ bytes
    → decode rest ≡ some more
    → decode (text ++ rest) ≡ some (bytes ++ more)
unfolding decode
decode_step p q r s bytes more text rest e f g = rw (e, ← f, g, decode) refl

one_byte :
    (a : ℕ)
    → a < 256
    → decode_group (base64_char (a / 4)) (base64_char (a % 4 * 16 + 0 / 16)) 61 61 ≡ a ∷ []
one_byte a h =
    decode_one (a / 4) (a % 4 * 16 + 0 / 16) (omega arith) (omega arith)
    ∙ ap (λ x. x ∷ []) (omega arith)

two_bytes :
    (a b : ℕ)
    → a < 256
    → b < 256
    → decode_group
        (base64_char (a / 4))
        (base64_char (a % 4 * 16 + b / 16))
        (base64_char (b % 16 * 4 + 0 / 64))
        61
      ≡ a ∷ b ∷ []
two_bytes a b h k =
    decode_two (a / 4) (a % 4 * 16 + b / 16) (b % 16 * 4 + 0 / 64) (omega arith) (omega arith)
      (omega arith)
    ∙ pair (omega arith) (omega arith)
  where
    pair : {x y : ℕ} → x ≡ a → y ≡ b → x ∷ y ∷ [] ≡ a ∷ b ∷ []
    pair e f = rw (e, f) refl

three_bytes :
    (a b c : ℕ)
    → a < 256
    → b < 256
    → c < 256
    → decode_group
        (base64_char (a / 4))
        (base64_char (a % 4 * 16 + b / 16))
        (base64_char (b % 16 * 4 + c / 64))
        (base64_char (c % 64))
      ≡ a ∷ b ∷ c ∷ []
three_bytes a b c h k l =
    decode_three (a / 4) (a % 4 * 16 + b / 16) (b % 16 * 4 + c / 64) (c % 64) (omega arith)
      (omega arith) (omega arith) (omega arith)
    ∙ triple (omega arith) (omega arith) (omega arith)
  where
    triple : {x y z : ℕ} → x ≡ a → y ≡ b → z ≡ c → x ∷ y ∷ z ∷ [] ≡ a ∷ b ∷ c ∷ []
    triple e f g = rw (e, f, g) refl

decode_end : decode (base64_loop []) ≡ some []
unfolding decode base64_loop
decode_end = refl

decode-loop : (s : List ℕ) → All (λ b. b < 256) s → decode (base64_loop s) ≡ some s
unfolding base64_loop
decode-loop [] h = decode_end
decode-loop (a ∷ []) (h, more) =
    decode_step (base64_char (a / 4)) (base64_char (a % 4 * 16 + 0 / 16)) 61 61 (a ∷ []) []
      (base64_group 1 a 0 0) (base64_loop []) (group_one a h) (one_byte a h) decode_end
decode-loop (a ∷ b ∷ []) (h, (k, more)) =
    decode_step (base64_char (a / 4)) (base64_char (a % 4 * 16 + b / 16))
      (base64_char (b % 16 * 4 + 0 / 64)) 61 (a ∷ b ∷ []) [] (base64_group 2 a b 0) (base64_loop [])
      (group_two a b h k) (two_bytes a b h k) decode_end
decode-loop (a ∷ b ∷ c ∷ rest) (h, (k, (l, more))) =
    decode_step (base64_char (a / 4)) (base64_char (a % 4 * 16 + b / 16))
      (base64_char (b % 16 * 4 + c / 64)) (base64_char (c % 64)) (a ∷ b ∷ c ∷ []) rest
      (base64_group 3 a b c) (base64_loop rest) (group_three a b c h k l) (three_bytes a b c h k l)
      (decode-loop rest more)

group_size : (k a b c : ℕ) → length (base64_group k a b c) ≡ 4
unfolding base64_group
group_size k a b c = refl

pub loop_size : (s : List ℕ) → length (base64_loop s) ≡ (length s + 2) / 3 * 4 + 1
unfolding base64_loop
loop_size [] = refl
loop_size (a ∷ []) =
    omega (
      arith,
      length-append (base64_group 1 a 0 0) (base64_loop []),
      group_size 1 a 0 0,
      loop_size [],
    )
loop_size (a ∷ b ∷ []) =
    omega (
      arith,
      length-append (base64_group 2 a b 0) (base64_loop []),
      group_size 2 a b 0,
      loop_size [],
    )
loop_size (a ∷ b ∷ c ∷ rest) = omega (
  arith,
  length-append (base64_group 3 a b c) (base64_loop rest),
  group_size 3 a b c,
  loop_size rest,
)

-- The encoding of bytes fills an output of BASE64_OUTLEN bytes exactly, and it decodes to the
-- bytes, when there are fewer than 2 ^ 32 of them.
pub decode-base64_encode :
    (s : List ℕ)
    → All (λ b. b < 256) s
    → length s < 2 ^ 32
    → (out : List ℕ) × (base64_encode ((length s + 2) / 3 * 4 + 1) s ≡ some out)
      × (length out ≡ (length s + 2) / 3 * 4 + 1)
      × (decode out ≡ some s)
unfolding base64_encode
decode-base64_encode s h small = (
  base64_loop s,
  rw
      (
        ltb-false ((2 ^ 64 - 2) / 4 * 3) (length s) (omega arith),
        ltb-false ((length s + 2) / 3 * 4 + 1) ((length s + 2) / 3 * 4 + 1) (omega arith),
      )
      refl,
  loop_size s,
  decode-loop s h,
)
