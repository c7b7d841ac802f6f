-- ===== src/Rules/Tests.antt =====
-- The laws of the rules at concrete inputs.
use nsproxy.Common.{
  ℕ, ◌≡◌, refl, ◌↔◌, true, not, ◌&&◌, ◌||◌, some, List, [], ◌∷◌, arith, if◌then◌else◌, ◌===◌, take,
  replicate, All, Some,
}
use nsproxy.Rules.Conf.{NspConf, socks5, off, whitelist, CidrBlock, inet}
use nsproxy.Rules.Text.{normalize_domain}
use nsproxy.Rules.Capacity.{next_capacity, next_capacity_lem}
use nsproxy.Rules.Domains.{
  rule_matches, nspconf_domain_matches, nspconf_add_direct_domain, rule_text, is_blank,
}
use nsproxy.Rules.Domains.Match.{Covers, nspconf_domain_matches_iff}
use nsproxy.Rules.Domains.Add.{DomainsValid, domain_matches-add_domain}
use nsproxy.Rules.Cidr.{cidr_match_bytes, nspconf_add_direct_cidr_raw}
use nsproxy.Rules.Cidr.Bits.{bits, IsByte}
use nsproxy.Rules.Cidr.Match.{cidr_match_bytes_iff}
use nsproxy.Rules.Target.{v4, block_matches, is_direct_cidr_target, is_direct-add_cidr}

-- "a.b", "*.a.b" and " A.b. ".
abbrev pub name_ab : List ℕ
name_ab = b'a' ∷ b'.' ∷ b'b' ∷ []

abbrev pub below_ab : List ℕ
below_ab = b'*' ∷ b'.' ∷ b'a' ∷ b'.' ∷ b'b' ∷ []

abbrev spaced : List ℕ
spaced = 32 ∷ b'A' ∷ b'.' ∷ b'b' ∷ b'.' ∷ 32 ∷ []

abbrev pub empty_conf : NspConf
empty_conf = record {
  proxysrv = [];
  proxyport = 1080;
  proxytype = socks5;
  dnssrv = [];
  dnsport = 53;
  dnstype = off;
  proxyuser = [];
  proxypass = [];
  ipv6 = 0;
  no_proxy_half_close = 0;
  direct_cidr_capacity = 0;
  direct_cidrs = [];
  direct_cidr_mode = whitelist;
  direct_domain_capacity = 16;
  direct_domains = name_ab ∷ [];
}

abbrev ten : CidrBlock
ten = record { family = inet; prefixlen = 9; addr = 10 ∷ 128 ∷ 0 ∷ 0 ∷ replicate 12 0 }

abbrev near : List ℕ
near = 10 ∷ 200 ∷ 0 ∷ 1 ∷ []

near_bytes : All IsByte near
near_bytes = (omega arith, (omega arith, (omega arith, (omega arith, tt))))

network_bytes : All IsByte (10 ∷ 128 ∷ 0 ∷ 0 ∷ [])
network_bytes = (omega arith, (omega arith, (omega arith, (omega arith, tt))))

cidr_match_bytes_iff_example :
    (cidr_match_bytes near (10 ∷ 128 ∷ 0 ∷ 0 ∷ []) 9 ≡ true)
    ↔ (take 9 (bits near) ≡ take 9 (bits (10 ∷ 128 ∷ 0 ∷ 0 ∷ [])))
cidr_match_bytes_iff_example =
    cidr_match_bytes_iff near (10 ∷ 128 ∷ 0 ∷ 0 ∷ []) 9 near_bytes network_bytes refl (omega arith)

is_direct-add_cidr_example :
    is_direct_cidr_target (nspconf_add_direct_cidr_raw empty_conf inet 9 ten.addr) (v4 near)
    ≡ (if block_matches (v4 near) ten then true else is_direct_cidr_target empty_conf (v4 near))
is_direct-add_cidr_example = is_direct-add_cidr empty_conf inet 9 ten.addr (v4 near)

nspconf_domain_matches_iff_example :
    (nspconf_domain_matches empty_conf below_ab ≡ true)
    ↔ Some (Covers (normalize_domain (take 255 below_ab))) (name_ab ∷ [])
nspconf_domain_matches_iff_example = nspconf_domain_matches_iff empty_conf below_ab

domain_matches-add_domain_example :
    nspconf_domain_matches (nspconf_add_direct_domain empty_conf spaced) below_ab ≡ (
      nspconf_domain_matches empty_conf below_ab
      || (not (is_blank (rule_text spaced))
          && rule_matches (normalize_domain (take 255 below_ab)) (rule_text spaced)))
domain_matches-add_domain_example = domain_matches-add_domain empty_conf spaced below_ab

one_rule : DomainsValid empty_conf
unfolding is_blank ◌===◌
one_rule = record { distinct = (refl, tt); nonblank = (refl, tt); within = omega arith }

next_capacity_lem_example : next_capacity 16 ≡ some 17
next_capacity_lem_example = next_capacity_lem 16
