-- ===== src/Options.antt =====
-- The command line and the rule files of src/main.c. What the kernel, the resolver and the file system
-- answer is an argument; the functions of the C library on strings are written out here, on the bytes
-- in front of the NUL.
pub mod Outcome
pub mod Text
pub mod Cidr
pub mod Files
pub mod Auth
pub mod Dns
pub mod Main
pub mod Finish
pub mod Valid
mod Tests
use nsproxy.Common.{
  ℕ, zero, suc, ◌+◌, ◌-◌, ◌*◌, ◌/◌, ◌%◌, ◌^◌, ◌≤◌, ◌<◌, bit_and, bit_or, ◌≡◌, refl, sym, ap, ◌∙◌,
  ◌≢◌, ◌↔◌, ◌⊎◌, inl, inr, Bool, true, false, not, ◌&&◌, ◌||◌, Option, none, some, List, [], ◌∷◌,
  ◌++◌, map, reverse, append-nil, append_assoc, arith, ltb, leb, ◌==◌, if◌then◌else◌, ltb→lt,
  lt→ltb, leb→le, ==_iff, ◌===◌, ===→eq, ===_refl, Bool-cases, Option-cases, ||_cases, ||_right,
  &&_parts, absorb, if_cases, leb-false, ltb-false, ==_false, le_of_ltb, lt_of_leb, length,
  get_elem?, get_or, take, drop, replicate, any, All, length-append, length-reverse,
  length-replicate, length-take, length-drop, take-append-drop, take-append, drop-append, take_all,
  get_elem?-append, get_elem?_below, any-append, All-append, any_mem, Some, any_iff, tail_eq,
}
use nsproxy.Rules.Text.{is_space, skip_space}

-- Why the program exits, by its message.
pub data Fail : Type 0 where
  bad_block bad_prefix bad_address : Fail
  cannot_open line_too_long read_failed : Fail
  bad_auth auth_too_long : Fail
  bad_dns bad_dns_port unbracketed_dns unsupported_dns : Fail
  bad_mode bad_option help_shown no_command : Fail
  http_and_direct bad_server : Fail

-- The value, or the end of the program.
pub data Result {ℓ} (A : Type ℓ) : Type ℓ where
  ok : A → Result A
  exits : Fail → Result A

abbrev pub and_then {ℓ κ} : {A : Type ℓ} {B : Type κ} → Result A → (A → Result B) → Result B
and_then (ok a) f = f a
and_then (exits e) f = exits e

abbrev pub is_nil {ℓ} : {A : Type ℓ} → List A → Bool
is_nil [] = true
is_nil (x ∷ xs) = false

abbrev pub further : ℕ → Option (List ℕ × List ℕ) → Option (List ℕ × List ℕ)
further b none = none
further b (some (s, t)) = some (b ∷ s, t)

-- strchr(): what stands before the first `c`, and what stands behind it.
unfoldable pub strchr : ℕ → List ℕ → Option (List ℕ × List ℕ)
strchr c [] = none
strchr c (b ∷ s) = if b == c then some ([], s) else further b (strchr c s)

abbrev pub has_byte : ℕ → List ℕ → Bool
has_byte c s = any (λ b. b == c) s

-- A `long`.
pub data ℤ : Type 0 where
  pos negsuc : ℕ → ℤ

abbrev pub is_decimal : ℕ → Bool
is_decimal c = leb b'0' c && leb c b'9'

abbrev pub digits_from : ℕ → List ℕ → ℕ × List ℕ
digits_from n [] = (n, [])
digits_from n (c ∷ s) = if is_decimal c then digits_from (n * 10 + (c - b'0')) s else (n, c ∷ s)

abbrev pub negated : ℕ → ℤ
negated zero = pos 0
negated (suc n) = negsuc n

-- The value, within LONG_MIN and LONG_MAX.
abbrev pub clamped : Bool → ℕ → ℤ
clamped false n = pos (if ltb n (2 ^ 63) then n else 2 ^ 63 - 1)
clamped true n = negated (if leb n (2 ^ 63) then n else 2 ^ 63)

-- No digit: the value is 0, and the end is the start of the string.
abbrev pub strtol_digits : Bool → List ℕ → List ℕ → ℤ × List ℕ
strtol_digits minus str [] = (pos 0, str)
strtol_digits minus str (c ∷ s) =
    let r = digits_from 0 (c ∷ s) in if is_decimal c then (clamped minus r.0, r.1) else (pos 0, str)

abbrev pub strtol_sign : List ℕ → List ℕ → ℤ × List ℕ
strtol_sign str [] = (pos 0, str)
strtol_sign str (c ∷ s) =
    if c == b'-'
    then strtol_digits true str s
    else strtol_digits false str (if c == b'+' then s else c ∷ s)

-- strtol() in base 10: the value, and what `*endptr` points to.
unfoldable pub strtol : List ℕ → ℤ × List ℕ
unfolding skip_space is_space
strtol str = strtol_sign str (skip_space str)
