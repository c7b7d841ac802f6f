-- ===== src/Core/Route.antt =====
-- The choice of a route in core_tcp_new() and core_udp_new() of src/core.c.
use nsproxy.Common.{
  ℕ, ◌≡◌, refl, inl, inr, Bool, true, false, ◌&&◌, ◌||◌, Option, none, some, ◌==◌, if◌then◌else◌,
  ◌===◌, Bool-cases,
}
use nsproxy.Rules.Conf.{NspConf, ProxyType, socks5, http, direct, DnsType, off, tcp, udp}
use nsproxy.Rules.Target.{IpAddr, v4, v6, is_direct_cidr_target}

-- ip_addr_cmp() of two addresses, by family and bytes.
abbrev pub same_addr : IpAddr → IpAddr → Bool
same_addr (v4 a) (v4 b) = a === b
same_addr (v6 a) (v6 b) = a === b
same_addr a b = false

-- The addresses of the tun interface.
pub record Netif : Type 0 where
  pub ip4 : IpAddr
  pub ip6 : IpAddr

unfoldable pub is_gateway : Netif → IpAddr → Bool
is_gateway netif addr = same_addr addr netif.ip4 || same_addr addr netif.ip6

-- Where core_tcp_new() connects to: the host's loopback for the gateway, else the destination itself
-- or a proxy.
pub data Via : Type 0 where
  host itself socks_server http_server : Via

abbrev pub via_proxy : ProxyType → Via
via_proxy socks5 = socks_server
via_proxy http = http_server
via_proxy direct = itself

unfoldable pub tcp_route : NspConf → Netif → IpAddr → Via
tcp_route conf netif addr =
    if is_gateway netif addr
    then host
    else (if is_direct_cidr_target conf addr then itself else via_proxy conf.proxytype)

-- Where core_udp_new() connects to: a name server, over TCP or as it is; the host's loopback; the
-- destination itself; the relay of the SOCKS5 server; or nowhere.
pub data UdpVia : Type 0 where
  dns_over_tcp dns_server loopback target relay nowhere : UdpVia

abbrev pub udp_via_proxy : ProxyType → UdpVia
udp_via_proxy socks5 = relay
udp_via_proxy direct = target
udp_via_proxy http = nowhere

-- The redirection, which is tried first.
abbrev pub redirected : DnsType → Option UdpVia
redirected off = none
redirected tcp = some dns_over_tcp
redirected udp = some dns_server

abbrev pub via_or : Option UdpVia → UdpVia → UdpVia
via_or none plain = plain
via_or (some via) plain = via

abbrev pub plain_udp_route : NspConf → Bool → IpAddr → UdpVia
plain_udp_route conf gateway addr =
    if gateway
    then loopback
    else (if is_direct_cidr_target conf addr then target else udp_via_proxy conf.proxytype)

unfoldable pub udp_route : NspConf → Netif → IpAddr → ℕ → UdpVia
udp_route conf netif addr port =
    let plain = plain_udp_route conf (is_gateway netif addr) addr in
    if is_gateway netif addr && port == 53 then via_or (redirected conf.dnstype) plain else plain

-- The way of UDP that goes with a way of TCP.
abbrev pub udp_like : Via → UdpVia
udp_like host = loopback
udp_like itself = target
udp_like socks_server = relay
udp_like http_server = nowhere

plain-like :
    (conf : NspConf) (gateway : Bool) (addr : IpAddr)
    → plain_udp_route conf gateway addr
      ≡ udp_like (
          if gateway
          then host
          else (if is_direct_cidr_target conf addr then itself else via_proxy conf.proxytype))
plain-like conf true addr = refl
plain-like conf false addr = elim (Bool-cases (is_direct_cidr_target conf addr)) [
  | inl near ↦ rw near refl
  | inr far ↦ rw far (by_type conf.proxytype)
]
  where
    by_type : (p : ProxyType) → udp_via_proxy p ≡ udp_like (via_proxy p)
    by_type socks5 = refl
    by_type http = refl
    by_type direct = refl

-- UDP goes the way that TCP goes to the same address: to the loopback, to the destination, to the
-- relay where TCP goes to a SOCKS5 server, and nowhere where TCP goes to an HTTP proxy. Only a query to
-- port 53 of the gateway goes to the name server instead, if redirection is on.
pub udp_route-tcp_route :
    (conf : NspConf) (netif : Netif) (addr : IpAddr) (port : ℕ)
    → udp_route conf netif addr port ≡ (
        if is_gateway netif addr && port == 53
        then via_or (redirected conf.dnstype) (udp_like (tcp_route conf netif addr))
        else udp_like (tcp_route conf netif addr))
unfolding udp_route tcp_route
udp_route-tcp_route conf netif addr port = rw (plain-like conf (is_gateway netif addr) addr) refl
