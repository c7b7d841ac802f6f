-- ===== src/Rules/Cidr.antt =====
-- CIDR blocks: cidr_match_bytes() of src/core.c and nspconf_add_direct_cidr_raw() of src/main.c.
pub mod Bits
pub mod Match
use nsproxy.Common.{
  ℕ, zero, suc, ◌+◌, ◌-◌, ◌*◌, ◌/◌, ◌%◌, ◌^◌, ◌≤◌, ◌<◌, bit_and, bit_or, ◌≡◌, refl, sym, ap, ◌∙◌,
  ◌≢◌, ◌↔◌, ◌⊎◌, inl, inr, Bool, true, false, not, ◌&&◌, ◌||◌, Option, none, some, List, [], ◌∷◌,
  ◌++◌, map, reverse, append-nil, append_assoc, arith, ltb, leb, ◌==◌, if◌then◌else◌, ltb→lt,
  lt→ltb, leb→le, ==_iff, ◌===◌, ===→eq, ===_refl, Bool-cases, Option-cases, ||_cases, ||_right,
  &&_parts, length, get_elem?, get_or, take, drop, replicate, any, All, length-append,
  length-reverse, length-replicate, length-take, length-drop, take-append-drop, take-append,
  drop-append, take_all, get_elem?-append, get_elem?_below, any-append, All-append, any_mem, Some,
  any_iff, tail_eq,
}
use nsproxy.Rules.Conf.{NspConf, CidrBlock, Family, inet, inet6, direct_cidr_count}
use nsproxy.Rules.Capacity.{grown}

unfoldable pub same_family : Family → Family → Bool
same_family inet inet = true
same_family inet6 inet6 = true
same_family _ _ = false

-- `(uint8_t)(0xff << (8 - rembits))`
abbrev pub mask_of : ℕ → ℕ
mask_of rembits = 0xff * 2 ^ (8 - rembits) % 256

-- The test on the byte that the prefix ends in.
unfoldable pub rest_matches : List ℕ → List ℕ → ℕ → ℕ → Bool
rest_matches addr network fullbytes rembits =
    if ltb 0 rembits
    then bit_and (get_or addr fullbytes 0) (mask_of rembits)
      == bit_and (get_or network fullbytes 0) (mask_of rembits)
    else true

unfoldable pub cidr_match_bytes : List ℕ → List ℕ → ℕ → Bool
unfolding rest_matches
cidr_match_bytes addr network prefixlen =
    if ltb 0 (prefixlen / 8) && not (take (prefixlen / 8) addr === take (prefixlen / 8) network)
    then false
    else rest_matches addr network (prefixlen / 8) (prefixlen % 8)

-- The duplicate test of the loop.
unfoldable pub same_block : CidrBlock → CidrBlock → Bool
unfolding same_family
same_block b c = same_family b.family c.family && (b.prefixlen == c.prefixlen && b.addr === c.addr)

unfoldable pub nspconf_add_direct_cidr_raw : NspConf → Family → ℕ → List ℕ → NspConf
unfolding same_block grown
nspconf_add_direct_cidr_raw conf family prefixlen addr =
    let cidr : CidrBlock = record { family = family; prefixlen = prefixlen; addr = addr } in
    if any (λ c. same_block c cidr) conf.direct_cidrs then conf else (record conf {
      direct_cidr_capacity =
          if direct_cidr_count conf == conf.direct_cidr_capacity
          then grown conf.direct_cidr_capacity
          else conf.direct_cidr_capacity;
      direct_cidrs = conf.direct_cidrs ++ (cidr ∷ []);
    })
