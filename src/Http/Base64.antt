-- ===== src/Http/Base64.antt =====
-- base64_encode() of src/http.c.
pub mod Group
pub mod RoundTrip
use nsproxy.Common.{
  ℕ, zero, suc, ◌+◌, ◌-◌, ◌*◌, ◌/◌, ◌%◌, ◌^◌, ◌≤◌, ◌<◌, bit_and, bit_or, ◌≡◌, refl, sym, ap, ◌∙◌,
  ◌≢◌, ◌↔◌, ◌⊎◌, inl, inr, Bool, true, false, not, ◌&&◌, ◌||◌, Option, none, some, List, [], ◌∷◌,
  ◌++◌, map, reverse, append-nil, append_assoc, arith, ltb, leb, ◌==◌, if◌then◌else◌, ltb→lt,
  lt→ltb, leb→le, ==_iff, ◌===◌, ===→eq, ===_refl, Bool-cases, Option-cases, ||_cases, ||_right,
  &&_parts, absorb, if_cases, leb-false, ltb-false, ==_false, le_of_ltb, lt_of_leb, length,
  get_elem?, get_or, take, drop, replicate, any, All, length-append, length-reverse,
  length-replicate, length-take, length-drop, take-append-drop, take-append, drop-append, take_all,
  get_elem?-append, get_elem?_below, any-append, All-append, any_mem, Some, any_iff, tail_eq,
}

-- The encoding table.
abbrev pub base64_chars : List ℕ
base64_chars =
    65 ∷ 66 ∷ 67 ∷ 68 ∷ 69 ∷ 70 ∷ 71 ∷ 72 ∷ 73 ∷ 74 ∷ 75 ∷ 76 ∷ 77 ∷ 78 ∷ 79 ∷ 80 ∷ 81 ∷ 82 ∷ 83
    ∷ 84 ∷ 85 ∷ 86 ∷ 87 ∷ 88 ∷ 89 ∷ 90 ∷ 97 ∷ 98 ∷ 99 ∷ 100 ∷ 101 ∷ 102 ∷ 103 ∷ 104 ∷ 105 ∷ 106
    ∷ 107 ∷ 108 ∷ 109 ∷ 110 ∷ 111 ∷ 112 ∷ 113 ∷ 114 ∷ 115 ∷ 116 ∷ 117 ∷ 118 ∷ 119 ∷ 120 ∷ 121 ∷ 122
    ∷ 48 ∷ 49 ∷ 50 ∷ 51 ∷ 52 ∷ 53 ∷ 54 ∷ 55 ∷ 56 ∷ 57 ∷ 43 ∷ 47 ∷ []

abbrev pub base64_char : ℕ → ℕ
base64_char v = get_or base64_chars v 0

-- The four characters of a group whose bytes are `a`, `b` and `c`, `k` of them read, the others zero.
unfoldable pub base64_group : ℕ → ℕ → ℕ → ℕ → List ℕ
base64_group k a b c =
    base64_char (bit_and a 0xfc / 4)
    ∷ base64_char (bit_or (bit_and a 3 * 16) (b / 16))
    ∷ (if ltb 1 k then base64_char (bit_or (bit_and b 15 * 4) (c / 64)) else 61)
    ∷ (if ltb 2 k then base64_char (bit_and c 0x3f) else 61)
    ∷ []

unfoldable pub base64_loop : List ℕ → List ℕ
unfolding base64_group
base64_loop [] = 0 ∷ []
base64_loop (a ∷ []) = base64_group 1 a 0 0 ++ base64_loop []
base64_loop (a ∷ b ∷ []) = base64_group 2 a b 0 ++ base64_loop []
base64_loop (a ∷ b ∷ c ∷ rest) = base64_group 3 a b c ++ base64_loop rest

-- The bytes written, with the NUL; `none` where it returns 0.
unfoldable pub base64_encode : ℕ → List ℕ → Option (List ℕ)
unfolding base64_loop
base64_encode outlen binary =
    if ltb ((2 ^ 64 - 2) / 4 * 3) (length binary) || ltb outlen ((length binary + 2) / 3 * 4 + 1)
    then none
    else some (base64_loop binary)
