-- ===== src/Core/Assoc.antt =====
-- The UDP association of src/core.c, with the list of UDP forwards: core_start_udp_assoc(),
-- core_udp_new(), udp_assoc_io_event(), core_gc_tmr() and core_reassoc_tmr(). What the calls of the
-- proxies answer is an argument. The head of the list is the newest forward.
pub mod Valid
pub mod Proxies
pub mod Invariant
pub mod Retry
use nsproxy.Common.{
  ℕ, zero, suc, ◌+◌, ◌-◌, ◌*◌, ◌/◌, ◌%◌, ◌^◌, ◌≤◌, ◌<◌, bit_and, bit_or, ◌≡◌, refl, sym, ap, ◌∙◌,
  ◌≢◌, ◌↔◌, ◌⊎◌, inl, inr, Bool, true, false, not, ◌&&◌, ◌||◌, Option, none, some, List, [], ◌∷◌,
  ◌++◌, map, reverse, append-nil, append_assoc, arith, ltb, leb, ◌==◌, if◌then◌else◌, ltb→lt,
  lt→ltb, leb→le, ==_iff, ◌===◌, ===→eq, ===_refl, Bool-cases, Option-cases, ||_cases, ||_right,
  &&_parts, absorb, if_cases, leb-false, ltb-false, ==_false, le_of_ltb, lt_of_leb, length,
  get_elem?, get_or, take, drop, replicate, any, All, length-append, length-reverse,
  length-replicate, length-take, length-drop, take-append-drop, take-append, drop-append, take_all,
  get_elem?-append, get_elem?_below, any-append, All-append, any_mem, Some, any_iff, tail_eq,
}
use nsproxy.Rules.Conf.{NspConf, ProxyType, socks5, http, direct}
use nsproxy.Rules.Target.{IpAddr, is_direct_cidr_target}
use nsproxy.Skutils.{Ret, Recv, epollin, epollout, epollerr, epollhup}
use nsproxy.Core.Route.{Netif, UdpVia, relay, target, nowhere, udp_route}
use nsproxy.Core.Udp.{
  UdpForward, UdpSend, UdpTurn, udp_timeout, udp_proxy_output, udp_proxy_input, udp_lwip_received,
}

-- The fields of `struct corectx` that UDP forwarding uses; `udpassoc` says whether it is there.
pub record Assoc : Type 0 where
  pub udplst : List UdpForward
  pub udpassoc : Bool
  pub assocready : Bool
  pub assocretries : ℕ
  pub assoccd : ℕ

abbrev pub is_socks5 : ProxyType → Bool
is_socks5 socks5 = true
is_socks5 http = false
is_socks5 direct = false

abbrev pub is_direct : ProxyType → Bool
is_direct direct = true
is_direct socks5 = false
is_direct http = false

-- What core_init() sets.
unfoldable pub assoc_init : NspConf → Assoc
assoc_init conf = record {
  udplst = [];
  udpassoc = false;
  assocready = is_direct conf.proxytype;
  assocretries = 0;
  assoccd = 0;
}

unfoldable pub core_has_pending_udp_assoc : Assoc → Bool
core_has_pending_udp_assoc core = any (λ f. not f.proxy) core.udplst

-- `1 << cdexp`, with at most 5 for the exponent.
unfoldable pub countdown : ℕ → ℕ
countdown retries = 2 ^ (if leb retries 5 then retries else 5)

-- `made` says whether socks_assoc_create() succeeds.
unfoldable pub core_start_udp_assoc : NspConf → Bool → Assoc → Assoc
core_start_udp_assoc conf made core =
    if core.udpassoc || (core.assocready || not (is_socks5 conf.proxytype))
    then core
    else (if ltb 0 core.assoccd
        then core
        else (let retries = (core.assocretries + 1) % 2 ^ 32 in
            record core {
              udpassoc = made;
              assocretries = retries;
              assoccd = if made then core.assoccd else countdown retries;
            }))

-- The forward that core_udp_new() makes: it waits for the association, it has its proxy, or it is
-- destroyed at once, which is an error.
abbrev pub new_forward : IpAddr → ℕ → UdpForward
new_forward addr port = record {
  proxy = false;
  local_ip = addr;
  local_port = port;
  rcvq = [];
  gc = udp_timeout port;
}

abbrev pub connected : Bool → UdpForward → Assoc → Assoc
connected made fwd core =
    if made then record core { udplst = record fwd { proxy = true } ∷ core.udplst } else core

abbrev pub new_by_route : NspConf → Bool → Bool → UdpForward → UdpVia → Assoc → Assoc
new_by_route conf made assoc_made fwd relay core =
    if not core.assocready
    then core_start_udp_assoc conf assoc_made (record core { udplst = fwd ∷ core.udplst })
    else connected made fwd core
new_by_route conf made assoc_made fwd nowhere core = core
new_by_route conf made assoc_made fwd via core = connected made fwd core

-- `made` says whether the proxy is created, `assoc_made` whether an association is.
unfoldable pub core_udp_new : NspConf → Netif → Bool → Bool → IpAddr → ℕ → Assoc → Assoc
core_udp_new conf netif made assoc_made addr port core =
    new_by_route conf made assoc_made (new_forward addr port) (udp_route conf netif addr port) core

-- Where udp_assoc_io_event() connects a waiting forward to.
abbrev pub pending_route : NspConf → UdpForward → UdpVia
pending_route conf fwd = if is_direct_cidr_target conf fwd.local_ip then target else relay

-- What the calls answer for the forward at some place of the list: whether the proxy that the route
-- asks for is created, and what it then sends.
pub record Settling : Type 0 where
  pub made : ℕ → UdpVia → Bool
  pub send : ℕ → ℕ → List ℕ → Ret

abbrev pub kept : UdpTurn → List UdpForward
kept t = if t.destroyed then [] else t.fwd ∷ []

-- A waiting forward gets its proxy and sends what it has, or it is destroyed.
unfoldable pub settle : NspConf → Settling → ℕ → UdpForward → List UdpForward
settle conf s i fwd =
    let next : UdpForward = record fwd { proxy = true } in
    if fwd.proxy
    then fwd ∷ []
    else (if not (s.made i (pending_route conf fwd))
        then []
        else (if length fwd.rcvq == 0 then next ∷ [] else kept (udp_proxy_output (s.send i) next)))

unfoldable pub settle_all : NspConf → Settling → ℕ → List UdpForward → List UdpForward
settle_all conf s i [] = []
settle_all conf s i (f ∷ fs) = settle conf s i f ++ settle_all conf s (i + 1) fs

unfoldable pub drop_pending : List UdpForward → List UdpForward
drop_pending [] = []
drop_pending (f ∷ fs) = if f.proxy then f ∷ drop_pending fs else drop_pending fs

-- `events & (EPOLLIN | EPOLLERR | EPOLLHUP)`
abbrev pub assoc_broken : ℕ → Bool
assoc_broken events = not (bit_and events (bit_or epollin (bit_or epollerr epollhup)) == 0)

unfoldable pub udp_assoc_io_event : NspConf → Settling → ℕ → Assoc → Assoc
udp_assoc_io_event conf s events core =
    if assoc_broken events
    then record core {
      udplst = drop_pending core.udplst;
      udpassoc = false;
      assocready = false;
      assoccd = countdown core.assocretries;
    }
    else record core {
      udplst = settle_all conf s 0 core.udplst;
      assocready = true;
      assocretries = 0;
    }

-- `if (ucur->gc-- == 0)` destroy.
unfoldable pub gc_udp : List UdpForward → List UdpForward
gc_udp [] = []
gc_udp (f ∷ fs) = if f.gc == 0 then gc_udp fs else record f { gc = f.gc - 1 } ∷ gc_udp fs

unfoldable pub core_reassoc_tmr : NspConf → Bool → Assoc → Assoc
core_reassoc_tmr conf made core =
    if not (is_socks5 conf.proxytype)
    then core
    else (if not core.udpassoc && (not core.assocready && core_has_pending_udp_assoc core)
        then (if ltb 0 core.assoccd
            then record core { assoccd = core.assoccd - 1 }
            else core_start_udp_assoc conf made core)
        else core)

-- Both timers, once a second.
unfoldable pub second : NspConf → Bool → Assoc → Assoc
second conf made core = core_reassoc_tmr conf made (record core { udplst = gc_udp core.udplst })
