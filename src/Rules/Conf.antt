-- ===== src/Rules/Conf.antt =====
-- src/common.h: `struct cidr_block`, and `struct nspconf` with its constants. A C string is the list
-- of its bytes before the NUL. An array with a count is the list of its entries in use, so a count
-- is a length; capacities are kept. The buffers proxyuser and proxypass are strings.
use nsproxy.Common.{ℕ, List, length}

pub data ProxyType : Type 0 where
  socks5 http direct : ProxyType

pub data DnsType : Type 0 where
  off tcp udp : DnsType

pub data CidrMode : Type 0 where
  whitelist blacklist : CidrMode

pub data Family : Type 0 where
  inet inet6 : Family

pub record CidrBlock : Type 0 where
  pub family : Family
  pub prefixlen : ℕ
  pub addr : List ℕ

pub record NspConf : Type 0 where
  pub proxysrv : List ℕ
  pub proxyport : ℕ
  pub proxytype : ProxyType
  pub dnssrv : List ℕ
  pub dnsport : ℕ
  pub dnstype : DnsType
  pub proxyuser : List ℕ
  pub proxypass : List ℕ
  pub ipv6 : ℕ
  pub no_proxy_half_close : ℕ
  pub direct_cidr_capacity : ℕ
  pub direct_cidrs : List CidrBlock
  pub direct_cidr_mode : CidrMode
  pub direct_domain_capacity : ℕ
  pub direct_domains : List (List ℕ)

abbrev pub direct_cidr_count : NspConf → ℕ
direct_cidr_count conf = length conf.direct_cidrs

abbrev pub direct_domain_count : NspConf → ℕ
direct_domain_count conf = length conf.direct_domains

-- SERVNAME_MAXLEN and AUTH_MAXLEN.
abbrev pub servname_maxlen : ℕ
servname_maxlen = 255

abbrev pub auth_maxlen : ℕ
auth_maxlen = 255
