-- ===== src/Core/Assoc/Invariant.antt =====
-- What holds of the UDP association of src/core.c after any sequence of events.
use nsproxy.Common.{
  ℕ, ◌≡◌, refl, sym, ap, ◌∙◌, Bool, true, false, not, ◌&&◌, Option, some, List, [], ◌∷◌, ◌++◌,
  arith, ◌==◌, if◌then◌else◌, if_cases, All, All-append,
}
use nsproxy.Rules.Conf.{NspConf, ProxyType, socks5, http, direct, DnsType, off, tcp, udp}
use nsproxy.Rules.Target.{IpAddr, is_direct_cidr_target}
use nsproxy.Skutils.{Ret, Recv}
use nsproxy.Core.Route.{
  Netif, UdpVia, dns_over_tcp, dns_server, loopback, target, relay, nowhere, udp_route, is_gateway,
  via_or, redirected, plain_udp_route, udp_via_proxy,
}
use nsproxy.Core.Udp.{UdpForward, UdpSend, udp_lwip_received}
use nsproxy.Core.Events.{UdpIo, udp_proxy_io_event}
use nsproxy.Core.Assoc.Proxies.{io_event-proxy}
use nsproxy.Core.Assoc.{
  Assoc, is_socks5, is_direct, assoc_init, new_forward, new_by_route, core_udp_new, Settling, kept,
  udp_assoc_io_event, second,
}
use nsproxy.Core.Assoc.Valid.{
  HasProxy, AssocValid, connected_valid, start_valid, kept_proxy, received_proxy, second_valid,
  io_event_valid,
}

abbrev pub survives : UdpIo → List UdpForward
survives io = if io.dead then [] else io.fwd ∷ []

-- The events that change the association, the list of forwards or the configuration: a new flow, an
-- event of the association while it is there, a datagram of lwIP or an event of the proxy for a forward
-- at its place in the list, and a second of the timers.
pub data Step : NspConf → Assoc → NspConf → Assoc → Type 0 where
  opened :
      (conf : NspConf) (core : Assoc) (netif : Netif) (made assoc_made : Bool) (addr : IpAddr)
      (port : ℕ)
      → Step conf core conf (core_udp_new conf netif made assoc_made addr port core)
  assoc_event :
      (conf : NspConf) (core : Assoc) (s : Settling) (events : ℕ)
      → core.udpassoc ≡ true
      → Step conf core conf (udp_assoc_io_event conf s events core)
  datagram :
      (conf : NspConf) (core : Assoc) (newer older : List UdpForward) (fwd : UdpForward)
      (send : ℕ → List ℕ → Ret) (p : Option (List ℕ))
      → core.udplst ≡ newer ++ (fwd ∷ older)
      → Step conf core conf
          (record core { udplst = newer ++ (kept (udp_lwip_received send p fwd) ++ older) })
  proxy_event :
      (conf : NspConf) (core : Assoc) (newer older : List UdpForward) (fwd : UdpForward)
      (send : ℕ → List ℕ → Ret) (events : ℕ) (arrivals : List (Recv × UdpSend)) (io : UdpIo)
      → core.udplst ≡ newer ++ (fwd ∷ older)
      → udp_proxy_io_event conf send events fwd arrivals ≡ some io
      → Step conf core io.conf (record core { udplst = newer ++ (survives io ++ older) })
  ticked :
      (conf : NspConf) (core : Assoc) (made : Bool) → Step conf core conf (second conf made core)

pub data Reach (first : NspConf) : NspConf → Assoc → Type 0 where
  start : Reach first first (assoc_init first)
  next : {a b : NspConf} {c d : Assoc} → Reach first a c → Step a c b d → Reach first b d

All-left : (P : UdpForward → Type 0) (xs ys : List UdpForward) → All P (xs ++ ys) → All P xs
All-left P [] ys h = tt
All-left P (x ∷ xs) ys (p, h) = (p, All-left P xs ys h)

All-right : (P : UdpForward → Type 0) (xs ys : List UdpForward) → All P (xs ++ ys) → All P ys
All-right P [] ys h = h
All-right P (x ∷ xs) ys (p, h) = All-right P xs ys h

-- What becomes of one forward leaves the proxies of the others.
replaced-HasProxy :
    (newer now older : List UdpForward) (fwd : UdpForward)
    → (HasProxy fwd → All HasProxy now)
    → All HasProxy (newer ++ (fwd ∷ older))
    → All HasProxy (newer ++ (now ++ older))
replaced-HasProxy newer now older fwd f h =
    let rest = All-right HasProxy newer (fwd ∷ older) h in
    All-append HasProxy newer _ (All-left HasProxy newer (fwd ∷ older) h)
      (All-append HasProxy now older (f rest.0) rest.1)

replaced_valid :
    (conf : NspConf) (core : Assoc) (newer now older : List UdpForward) (fwd : UdpForward)
    → core.udplst ≡ newer ++ (fwd ∷ older)
    → (HasProxy fwd → All HasProxy now)
    → AssocValid conf core
    → AssocValid conf (record core { udplst = newer ++ (now ++ older) })
replaced_valid conf core newer now older fwd e f v = record {
  there = v.there;
  settled = λ r. replaced-HasProxy newer now older fwd f (rw (sym e) (v.settled r));
  only_socks = λ s. replaced-HasProxy newer now older fwd f (rw (sym e) (v.only_socks s));
  capped = v.capped;
}

-- Of the configuration, only the kind of the proxy counts.
conf_valid :
    (c d : NspConf) (core : Assoc)
    → d.proxytype ≡ c.proxytype
    → AssocValid c core
    → AssocValid d core
conf_valid c d core e v = record {
  there = λ s r. v.there (ap is_socks5 (sym e) ∙ s) r;
  settled = v.settled;
  only_socks = λ s. v.only_socks (ap is_socks5 (sym e) ∙ s);
  capped = v.capped;
}

plain_socks :
    (conf : NspConf) (gateway : Bool) (addr : IpAddr)
    → plain_udp_route conf gateway addr ≡ relay
    → is_socks5 conf.proxytype ≡ true
plain_socks conf true addr h = cc
plain_socks conf false addr h = by_test (is_direct_cidr_target conf addr) conf.proxytype h
  where
    by_test :
        (near : Bool) (p : ProxyType)
        → (if near then target else udp_via_proxy p) ≡ relay
        → is_socks5 p ≡ true
    by_test near socks5 h = refl
    by_test true http h = cc
    by_test true direct h = cc
    by_test false http h = cc
    by_test false direct h = cc

-- Only over SOCKS5 does a datagram go to a relay.
relay_socks :
    (conf : NspConf) (netif : Netif) (addr : IpAddr) (port : ℕ)
    → udp_route conf netif addr port ≡ relay
    → is_socks5 conf.proxytype ≡ true
unfolding udp_route
relay_socks conf netif addr port =
    by_test (is_gateway netif addr && port == 53) conf.dnstype
      (plain_socks conf (is_gateway netif addr) addr)
  where
    by_test :
        (dns : Bool) (t : DnsType) {plain : UdpVia}
        → (plain ≡ relay → is_socks5 conf.proxytype ≡ true)
        → (if dns then via_or (redirected t) plain else plain) ≡ relay
        → is_socks5 conf.proxytype ≡ true
    by_test false t g h = g h
    by_test true off g h = g h
    by_test true tcp g h = cc
    by_test true udp g h = cc

opened_valid :
    (conf : NspConf) (netif : Netif) (made assoc_made : Bool) (addr : IpAddr) (port : ℕ)
    (core : Assoc)
    → AssocValid conf core
    → AssocValid conf (core_udp_new conf netif made assoc_made addr port core)
unfolding core_udp_new
opened_valid conf netif made assoc_made addr port core v =
    by_route (udp_route conf netif addr port) (relay_socks conf netif addr port)
  where
    by_route :
        (via : UdpVia)
        → (via ≡ relay → is_socks5 conf.proxytype ≡ true)
        → AssocValid conf (new_by_route conf made assoc_made (new_forward addr port) via core)
    by_route relay socks =
        if_cases (AssocValid conf) (not core.assocready) _ _
          (λ idle. start_valid conf assoc_made _ (record {
            there = v.there;
            settled = λ r. ground (arith, idle, r);
            only_socks = λ s. ground (arith, s, socks refl);
            capped = v.capped;
          }))
          (λ _. connected_valid conf made (new_forward addr port) core v)
    by_route nowhere _ = v
    by_route dns_over_tcp _ = connected_valid conf made (new_forward addr port) core v
    by_route dns_server _ = connected_valid conf made (new_forward addr port) core v
    by_route loopback _ = connected_valid conf made (new_forward addr port) core v
    by_route target _ = connected_valid conf made (new_forward addr port) core v

-- Every event keeps the association valid.
Step-AssocValid : {a b : NspConf} {c d : Assoc} → Step a c b d → AssocValid a c → AssocValid b d
Step-AssocValid (opened conf core netif made assoc_made addr port) v =
    opened_valid conf netif made assoc_made addr port core v
Step-AssocValid (assoc_event conf core s events here) v = io_event_valid conf s events core here v
Step-AssocValid (datagram conf core newer older fwd send p e) v =
    replaced_valid conf core newer (kept (udp_lwip_received send p fwd)) older fwd e
      (λ h. kept_proxy (udp_lwip_received send p fwd) (received_proxy send p fwd ∙ h)) v
Step-AssocValid (proxy_event conf core newer older fwd send events arrivals io e f) v =
    let (kind, proxy) = io_event-proxy conf send events fwd arrivals io f in
    conf_valid conf io.conf _ kind (
      replaced_valid conf core newer (survives io) older fwd e
        (λ h. if_cases (All HasProxy) io.dead [] (io.fwd ∷ []) (λ _. tt) (λ _. (proxy ∙ h, tt))) v)
Step-AssocValid (ticked conf core made) v = second_valid conf made core v

assoc_init_valid : (conf : NspConf) → AssocValid conf (assoc_init conf)
unfolding assoc_init
assoc_init_valid conf = record {
  there = λ s r. by_type conf.proxytype s r;
  settled = λ _. tt;
  only_socks = λ _. tt;
  capped = omega arith;
}
  where
    by_type : (p : ProxyType) → is_socks5 p ≡ true → is_direct p ≡ true → false ≡ true
    by_type socks5 s r = r
    by_type http s r = s
    by_type direct s r = s

-- After any sequence since the start of new flows, events of the association, datagrams of lwIP, events
-- of the forwards' proxies, which destroy forwards and learn from answers, and seconds of the timers:
-- over SOCKS5, an association that is ready is there; while it is ready, every UDP forward has its
-- proxy; without SOCKS5 no forward ever waits for an association; and the countdown to the next attempt
-- is at most 32 seconds.
pub Reach-AssocValid :
    {first conf : NspConf} {core : Assoc} → Reach first conf core → AssocValid conf core
Reach-AssocValid {first} start = assoc_init_valid first
Reach-AssocValid (next r s) = Step-AssocValid s (Reach-AssocValid r)
