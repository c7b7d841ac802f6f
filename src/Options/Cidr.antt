-- ===== src/Options/Cidr.antt =====
-- CIDR items of the command line and of files: add_direct_cidr() and parse_direct_cidrs() of
-- src/main.c. inet_pton() is a parameter.
pub mod Laws
use nsproxy.Common.{
  ℕ, zero, suc, ◌+◌, ◌-◌, ◌*◌, ◌/◌, ◌%◌, ◌^◌, ◌≤◌, ◌<◌, bit_and, bit_or, ◌≡◌, refl, sym, ap, ◌∙◌,
  ◌≢◌, ◌↔◌, ◌⊎◌, inl, inr, Bool, true, false, not, ◌&&◌, ◌||◌, Option, none, some, List, [], ◌∷◌,
  ◌++◌, map, reverse, append-nil, append_assoc, arith, ltb, leb, ◌==◌, if◌then◌else◌, ltb→lt,
  lt→ltb, leb→le, ==_iff, ◌===◌, ===→eq, ===_refl, Bool-cases, Option-cases, ||_cases, ||_right,
  &&_parts, absorb, if_cases, leb-false, ltb-false, ==_false, le_of_ltb, lt_of_leb, length,
  get_elem?, get_or, take, drop, replicate, any, All, length-append, length-reverse,
  length-replicate, length-take, length-drop, take-append-drop, take-append, drop-append, take_all,
  get_elem?-append, get_elem?_below, any-append, All-append, any_mem, Some, any_iff, tail_eq,
}
use nsproxy.Rules.Conf.{NspConf, Family, inet, inet6}
use nsproxy.Rules.Cidr.{nspconf_add_direct_cidr_raw}
use nsproxy.Rules.Text.{trim_ascii_space}
use nsproxy.Socks.Codec.{Inet}
use nsproxy.Options.{
  Result, ok, exits, bad_block, bad_prefix, bad_address, and_then, is_nil, strchr, has_byte, ℤ, pos,
  negsuc, strtol,
}

-- `(int)` of a long: its lowest 32 bits; from 2 ^ 31 on they are a negative number.
abbrev pub int_bits : ℤ → ℕ
int_bits (pos n) = n % 2 ^ 32
int_bits (negsuc n) = 2 ^ 32 - 1 - n % 2 ^ 32

abbrev pub max_prefix : Family → ℕ
max_prefix inet = 32
max_prefix inet6 = 128

abbrev pub pton : Inet → Family → List ℕ → Option (List ℕ)
pton libc inet s = libc.pton4 s
pton libc inet6 s = libc.pton6 s

-- `addr[16]`, which starts as zeros.
abbrev pub in_sixteen : List ℕ → List ℕ
in_sixteen b = b ++ replicate (16 - length b) 0

abbrev pub item_family : List ℕ → Family
item_family item = if has_byte b':' item then inet6 else inet

abbrev pub add_address : NspConf → Family → ℕ → Option (List ℕ) → Result NspConf
add_address conf family prefixlen none = exits bad_address
add_address conf family prefixlen (some b) =
    ok (nspconf_add_direct_cidr_raw conf family prefixlen (in_sixteen b))

-- The item, cut at its first slash.
unfoldable pub add_parts : Inet → NspConf → List ℕ → List ℕ → Result NspConf
add_parts libc conf item prefix =
    let family = item_family item in
    let parsed = strtol prefix in
    let prefixlen = int_bits parsed.0 in
    if is_nil item || is_nil prefix
    then exits bad_block
    else (if has_byte b'/' prefix
        then exits bad_block
        else (if not (is_nil parsed.1)
            then exits bad_prefix
            else (if leb (2 ^ 31) prefixlen || ltb (max_prefix family) prefixlen
                then exits bad_prefix
                else add_address conf family prefixlen (pton libc family item))))

unfoldable pub add_direct_cidr : Inet → NspConf → List ℕ → Result NspConf
add_direct_cidr libc conf item = elim (strchr b'/' item) [
  | none ↦ exits bad_block
  | some (before, after) ↦ add_parts libc conf before after
]

abbrev pub onto_first : ℕ → List (List ℕ) → List (List ℕ)
onto_first b [] = (b ∷ []) ∷ []
onto_first b (s ∷ ss) = (b ∷ s) ∷ ss

abbrev pub fields : ℕ → List ℕ → List (List ℕ)
fields c [] = [] ∷ []
fields c (b ∷ s) = if b == c then [] ∷ fields c s else onto_first b (fields c s)

abbrev pub nonempty : List (List ℕ) → List (List ℕ)
nonempty [] = []
nonempty (s ∷ ss) = if is_nil s then nonempty ss else s ∷ nonempty ss

-- What strtok_r() gives, call after call.
unfoldable pub strtok : ℕ → List ℕ → List (List ℕ)
strtok c s = nonempty (fields c s)

-- Each item without the spaces around it, up to the first that ends the program.
unfoldable pub add_items :
    (NspConf → List ℕ → Result NspConf) → List (List ℕ) → NspConf → Result NspConf
add_items add [] conf = ok conf
add_items add (s ∷ ss) conf =
    let item = trim_ascii_space s in
    and_then (if is_nil item then ok conf else add conf item) (add_items add ss)

unfoldable pub parse_direct_cidrs : Inet → NspConf → List ℕ → Result NspConf
parse_direct_cidrs libc conf arg = add_items (add_direct_cidr libc) (strtok b',' arg) conf
