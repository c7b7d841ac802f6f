-- ===== src/Http/Base64/Group.antt =====
-- One group of four characters of base64_encode() of src/http.c, against a decoder.
use nsproxy.Common.{
  ℕ, suc, ◌+◌, ◌*◌, ◌/◌, ◌%◌, ◌<◌, bit_and, bit_or, ◌≡◌, refl, sym, Bool, true, false, not, ◌&&◌,
  Option, none, some, List, [], ◌∷◌, ◌++◌, arith, ◌==◌, if◌then◌else◌, ==_iff, &&_parts,
}
use nsproxy.Common.Bytes.{all_below, all_below_sound}
use nsproxy.Http.Base64.{base64_chars, base64_char, base64_group}

-- A decoder: the characters' values, four to three bytes, up to the NUL.
pub char_value : List ℕ → ℕ → ℕ
char_value [] c = 0
char_value (d ∷ ds) c = if d == c then 0 else suc (char_value ds c)

pub decode_group : ℕ → ℕ → ℕ → ℕ → List ℕ
unfolding char_value
decode_group p q r s =
    let v = char_value base64_chars p in
    let w = char_value base64_chars q in
    let x = char_value base64_chars r in
    let y = char_value base64_chars s in
    if r == 61
    then (v * 4 + w / 16) ∷ []
    else (if s == 61
        then (v * 4 + w / 16) ∷ (w % 16 * 16 + x / 4) ∷ []
        else (v * 4 + w / 16) ∷ (w % 16 * 16 + x / 4) ∷ (x % 4 * 64 + y) ∷ [])

unfoldable pub decode : List ℕ → Option (List ℕ)
unfolding decode_group
decode (p ∷ q ∷ r ∷ s ∷ rest) = elim (decode rest) [
  | none ↦ none
  | some t ↦ some (decode_group p q r s ++ t)
]
decode (c ∷ []) = if c == 0 then some [] else none
decode _ = none

value_row : ℕ → Bool
unfolding char_value
value_row v = char_value base64_chars (base64_char v) == v && not (base64_char v == 61)

value_table : all_below 64 value_row ≡ true
unfolding all_below value_row
value_table = refl

char_value-char : (v : ℕ) → v < 64 → char_value base64_chars (base64_char v) ≡ v
unfolding value_row
char_value-char v h = (==_iff _ _).0 (&&_parts _ _ (all_below_sound 64 value_row v value_table h)).0

char_not_pad : (v : ℕ) → v < 64 → base64_char v == 61 ≡ false
unfolding value_row
char_not_pad v h =
    let (_, e) =
      &&_parts (char_value base64_chars (base64_char v) == v) (not (base64_char v == 61))
        (all_below_sound 64 value_row v value_table h) in
    not_false (base64_char v == 61) e
  where
    not_false : (b : Bool) → not b ≡ true → b ≡ false
    not_false true e = sym e
    not_false false e = refl

high_row : ℕ → Bool
high_row a =
    bit_and a 0xfc / 4 == a / 4
    && (bit_and a 3 == a % 4 && (bit_and a 15 == a % 16 && bit_and a 0x3f == a % 64))

high_table : all_below 256 high_row ≡ true
unfolding all_below high_row
high_table = refl

masks :
    (a : ℕ)
    → a < 256
    → (bit_and a 0xfc / 4 ≡ a / 4)
      × (bit_and a 3 ≡ a % 4)
      × (bit_and a 15 ≡ a % 16)
      × (bit_and a 0x3f ≡ a % 64)
unfolding high_row
masks a h =
    let row = all_below_sound 256 high_row a high_table h in
    let (e, more) =
      &&_parts (bit_and a 0xfc / 4 == a / 4)
        (bit_and a 3 == a % 4 && (bit_and a 15 == a % 16 && bit_and a 0x3f == a % 64)) row in
    let (f, last) =
      &&_parts (bit_and a 3 == a % 4) (bit_and a 15 == a % 16 && bit_and a 0x3f == a % 64) more in
    let (g, i) = &&_parts (bit_and a 15 == a % 16) (bit_and a 0x3f == a % 64) last in
    ((==_iff _ _).0 e, (==_iff _ _).0 f, (==_iff _ _).0 g, (==_iff _ _).0 i)

join_row : ℕ → ℕ → Bool
join_row x y = bit_or (x * 16) y == x * 16 + y

join_table : all_below 4 (λ x. all_below 16 (join_row x)) ≡ true
unfolding all_below join_row
join_table = refl

tail_row : ℕ → ℕ → Bool
tail_row x y = bit_or (x * 4) y == x * 4 + y

tail_table : all_below 16 (λ x. all_below 4 (tail_row x)) ≡ true
unfolding all_below tail_row
tail_table = refl

second_char :
    (a b : ℕ) → a < 256 → b < 256 → bit_or (bit_and a 3 * 16) (b / 16) ≡ a % 4 * 16 + b / 16
unfolding join_row
second_char a b h k =
    let (_, e, _, _) = masks a h in
    rw e (
      (==_iff _ _).0 (
        all_below_sound 16 (join_row (a % 4)) (b / 16)
          (all_below_sound 4 (λ x. all_below 16 (join_row x)) (a % 4) join_table (omega arith))
          (omega arith)))

third_char :
    (b c : ℕ) → b < 256 → c < 256 → bit_or (bit_and b 15 * 4) (c / 64) ≡ b % 16 * 4 + c / 64
unfolding tail_row
third_char b c h k =
    let (_, _, e, _) = masks b h in
    rw e (
      (==_iff _ _).0 (
        all_below_sound 4 (tail_row (b % 16)) (c / 64)
          (all_below_sound 16 (λ x. all_below 4 (tail_row x)) (b % 16) tail_table (omega arith))
          (omega arith)))

pub group_three :
    (a b c : ℕ)
    → a < 256
    → b < 256
    → c < 256
    → base64_group 3 a b c
      ≡ base64_char (a / 4)
        ∷ base64_char (a % 4 * 16 + b / 16)
        ∷ base64_char (b % 16 * 4 + c / 64)
        ∷ base64_char (c % 64)
        ∷ []
unfolding base64_group
group_three a b c h k l =
    let (ea, _, _, _) = masks a h in
    let (_, _, _, ec) = masks c l in rw (ea, ec, second_char a b h k, third_char b c k l) refl

pub decode_three :
    (p q r s : ℕ)
    → p < 64
    → q < 64
    → r < 64
    → s < 64
    → decode_group (base64_char p) (base64_char q) (base64_char r) (base64_char s)
      ≡ (p * 4 + q / 16) ∷ (q % 16 * 16 + r / 4) ∷ (r % 4 * 64 + s) ∷ []
unfolding decode_group
decode_three p q r s hp hq hr hs =
    rw
      (
        char_not_pad r hr,
        char_not_pad s hs,
        char_value-char p hp,
        char_value-char q hq,
        char_value-char r hr,
        char_value-char s hs,
      )
      refl

pub decode_two :
    (p q r : ℕ)
    → p < 64
    → q < 64
    → r < 64
    → decode_group (base64_char p) (base64_char q) (base64_char r) 61
      ≡ (p * 4 + q / 16) ∷ (q % 16 * 16 + r / 4) ∷ []
unfolding decode_group
decode_two p q r hp hq hr =
    rw (char_not_pad r hr, char_value-char p hp, char_value-char q hq, char_value-char r hr) refl

pub decode_one :
    (p q : ℕ)
    → p < 64
    → q < 64
    → decode_group (base64_char p) (base64_char q) 61 61 ≡ (p * 4 + q / 16) ∷ []
unfolding decode_group
decode_one p q hp hq = rw (char_value-char p hp, char_value-char q hq) refl

pub group_two :
    (a b : ℕ)
    → a < 256
    → b < 256
    → base64_group 2 a b 0
      ≡ base64_char (a / 4)
        ∷ base64_char (a % 4 * 16 + b / 16)
        ∷ base64_char (b % 16 * 4 + 0 / 64)
        ∷ 61
        ∷ []
unfolding base64_group
group_two a b h k =
    let (ea, _, _, _) = masks a h in
    rw (ea, second_char a b h k, third_char b 0 k (omega arith)) refl

pub group_one :
    (a : ℕ)
    → a < 256
    → base64_group 1 a 0 0 ≡ base64_char (a / 4) ∷ base64_char (a % 4 * 16 + 0 / 16) ∷ 61 ∷ 61 ∷ []
unfolding base64_group
group_one a h = let (ea, _, _, _) = masks a h in rw (ea, second_char a 0 h (omega arith)) refl
