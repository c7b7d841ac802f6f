-- ===== src/Rules/Target.antt =====
-- src/core.c: is_direct_cidr_target(), which says whether a destination is reached directly.
use nsproxy.Common.{
  ℕ, ◌≡◌, refl, inl, inr, Bool, true, false, not, ◌&&◌, ◌||◌, List, [], ◌∷◌, ◌++◌, arith, ◌==◌,
  if◌then◌else◌, ===→eq, Bool-cases, ||_cases, ||_right, absorb, length, replicate, any, any-append,
}
use nsproxy.Rules.Conf.{NspConf, CidrBlock, CidrMode, whitelist, blacklist, Family, inet, inet6}
use nsproxy.Rules.Cidr.{same_family, same_block, cidr_match_bytes, nspconf_add_direct_cidr_raw}

-- lwIP's ip_addr_t, by its bytes in network order: four of them, or sixteen.
pub data IpAddr : Type 0 where
  v4 v6 : List ℕ → IpAddr

abbrev pub family_of : IpAddr → Family
family_of (v4 a) = inet
family_of (v6 a) = inet6

-- `memset(raw, 0, 16)` and the bytes of the address.
abbrev pub raw_of : IpAddr → List ℕ
raw_of (v4 a) = a ++ replicate 12 0
raw_of (v6 a) = a

unfoldable pub block_matches : IpAddr → CidrBlock → Bool
unfolding same_family cidr_match_bytes
block_matches addr c =
    same_family c.family (family_of addr) && cidr_match_bytes (raw_of addr) c.addr c.prefixlen

abbrev pub is_blacklist : CidrMode → Bool
is_blacklist whitelist = false
is_blacklist blacklist = true

unfoldable pub is_direct_cidr_target : NspConf → IpAddr → Bool
unfolding block_matches
is_direct_cidr_target conf addr =
    if length conf.direct_cidrs == 0 && not (is_blacklist conf.direct_cidr_mode)
    then false
    else (let matched = any (block_matches addr) conf.direct_cidrs in
        if is_blacklist conf.direct_cidr_mode then not matched else matched)

-- The rule modes of the README: under a whitelist a destination is direct exactly when some block
-- contains it, and under a blacklist exactly when none does. The early return changes nothing.
pub is_direct_cidr_target_lem :
    (conf : NspConf) (addr : IpAddr)
    → is_direct_cidr_target conf addr ≡ (
        if is_blacklist conf.direct_cidr_mode
        then not (any (block_matches addr) conf.direct_cidrs)
        else any (block_matches addr) conf.direct_cidrs)
unfolding is_direct_cidr_target
is_direct_cidr_target_lem conf addr = by_mode conf.direct_cidr_mode conf.direct_cidrs
  where
    by_mode :
        (m : CidrMode) (cs : List CidrBlock)
        → (if length cs == 0 && not (is_blacklist m)
            then false
            else (if is_blacklist m
                then not (any (block_matches addr) cs)
                else any (block_matches addr) cs))
          ≡ (if is_blacklist m
              then not (any (block_matches addr) cs)
              else any (block_matches addr) cs)
    by_mode whitelist [] = refl
    by_mode whitelist (c ∷ cs) = ground arith
    by_mode blacklist cs = ground arith

same_family-eq : (f g : Family) → same_family f g ≡ true → f ≡ g
unfolding same_family
same_family-eq inet inet h = refl
same_family-eq inet6 inet6 h = refl
same_family-eq inet inet6 h = cc
same_family-eq inet6 inet h = cc

same_block-eq : (b c : CidrBlock) → same_block b c ≡ true → b ≡ c
unfolding same_block
same_block-eq b c h = ground (arith, same_family-eq b.family c.family, ===→eq b.addr c.addr)

any_block :
    (p : CidrBlock → Bool) (c : CidrBlock) (cs : List CidrBlock)
    → any (λ b. same_block b c) cs ≡ true
    → p c ≡ true
    → any p cs ≡ true
any_block p c [] h e = cc
any_block p c (b ∷ cs) h e = elim (||_cases (same_block b c) (any (λ b. same_block b c) cs) h) [
  | inl m ↦ rw (same_block-eq b c m, e)
  | inr m ↦ ||_right (p b) (any p cs) (any_block p c cs m e)
]

-- After a block is added, the destinations of the rules are those from before and those of the block.
pub any-add_cidr :
    (conf : NspConf) (family : Family) (prefixlen : ℕ) (bytes : List ℕ) (addr : IpAddr)
    → any
        (block_matches addr)
        (nspconf_add_direct_cidr_raw conf family prefixlen bytes).direct_cidrs
      ≡ (any (block_matches addr) conf.direct_cidrs
          || block_matches addr (record { family = family; prefixlen = prefixlen; addr = bytes }))
unfolding nspconf_add_direct_cidr_raw
any-add_cidr conf family prefixlen bytes addr =
    let c : CidrBlock = record { family = family; prefixlen = prefixlen; addr = bytes } in
    elim (Bool-cases (any (λ b. same_block b c) conf.direct_cidrs)) [
      | inl old ↦ rw old (absorb _ _ (any_block (block_matches addr) c conf.direct_cidrs old))
      | inr new ↦
          rw (new, any-append (block_matches addr) conf.direct_cidrs (c ∷ [])) (ground arith)
    ]

pub add_cidr_keeps :
    (conf : NspConf) (family : Family) (prefixlen : ℕ) (bytes : List ℕ)
    → (nspconf_add_direct_cidr_raw conf family prefixlen bytes).direct_cidr_mode
      ≡ conf.direct_cidr_mode
unfolding nspconf_add_direct_cidr_raw
add_cidr_keeps conf family prefixlen bytes = ground arith

-- Adding a block changes the answer for the destinations inside it, which become direct under a
-- whitelist and proxied under a blacklist, and for no other destination.
pub is_direct-add_cidr :
    (conf : NspConf) (family : Family) (prefixlen : ℕ) (bytes : List ℕ) (addr : IpAddr)
    → is_direct_cidr_target (nspconf_add_direct_cidr_raw conf family prefixlen bytes) addr ≡ (
        if block_matches addr (record { family = family; prefixlen = prefixlen; addr = bytes })
        then not (is_blacklist conf.direct_cidr_mode)
        else is_direct_cidr_target conf addr)
is_direct-add_cidr conf family prefixlen bytes addr =
    rw
      (
        is_direct_cidr_target_lem (nspconf_add_direct_cidr_raw conf family prefixlen bytes) addr,
        add_cidr_keeps conf family prefixlen bytes,
        any-add_cidr conf family prefixlen bytes addr,
        is_direct_cidr_target_lem conf addr,
      )
      (decide (is_blacklist conf.direct_cidr_mode) (any (block_matches addr) conf.direct_cidrs) _)
  where
    decide :
        (black old new : Bool)
        → (if black then not (old || new) else (old || new))
          ≡ (if new then not black else (if black then not old else old))
    decide true true true = refl
    decide true true false = refl
    decide true false true = refl
    decide true false false = refl
    decide false true true = refl
    decide false true false = refl
    decide false false true = refl
    decide false false false = refl
