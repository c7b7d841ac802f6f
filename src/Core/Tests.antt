-- ===== src/Core/Tests.antt =====
-- The laws of forwarding at concrete queues and flows.
use nsproxy.Common.{
  ℕ, zero, suc, ◌<◌, ◌≤◌, ◌%◌, ◌^◌, ◌&&◌, if◌then◌else◌, inl, ◌≡◌, refl, sym, true, false, Option,
  none, some, List, [], ◌∷◌, ◌++◌, append-nil, arith, ◌==◌, length, drop,
}
use nsproxy.Rules.Tests.{empty_conf}
use nsproxy.Skutils.{Ret, count, errno, bytes}
use nsproxy.Core.Tcp.{Pbufs, PbufLaws, queued, TcpForward, TcpTurn, OutCalls, tcp_proxy_output}
use nsproxy.Core.Tcp.Receive.{InCalls, tcp_proxy_input}
use nsproxy.Rules.Target.{v4}
use nsproxy.Core.Forwards.{Forwards}
use nsproxy.Core.Forwards.Idle.{tcp_left, udp_left, idle_seconds, core_gc_tmr-idle}
use nsproxy.Core.Events.Relays.{Relays}
use nsproxy.Core.Udp.{UdpForward}
use nsproxy.Rules.Conf.{NspConf, socks5}
use nsproxy.Core.Route.{
  Netif, is_gateway, via_or, redirected, udp_like, tcp_route, udp_route, udp_route-tcp_route,
}
use nsproxy.Core.Assoc.{Assoc, assoc_init, core_udp_new, second}
use nsproxy.Core.Assoc.Invariant.{Reach, start, next, opened, ticked, Reach-AssocValid}
use nsproxy.Core.Assoc.Valid.{AssocValid}
use nsproxy.Core.Assoc.Retry.{Starved, seconds, core_reassoc_tmr_retries}
use nsproxy.Core.Udp.Queue.{newest, all_received, all_received-newest}
use nsproxy.Core.Tcp.Output.{SendLaws, PassesOn, tcp_proxy_output-PassesOn}
use nsproxy.Core.Tcp.Input.{TakesIn, tcp_proxy_input-TakesIn}
use nsproxy.Core.Tcp.Ends.{Ended, tcp_forward-Ended}

-- Chains of one part: a byte and the bytes behind it.
abbrev of_list : List ℕ → Option (ℕ × List ℕ)
of_list [] = none
of_list (b ∷ s) = some (b, s)

abbrev alloc_list : List ℕ → ℕ × List ℕ
alloc_list [] = (0, [])
alloc_list (b ∷ s) = (b, s)

abbrev parts : Pbufs
parts = record {
  Chain = ℕ × List ℕ;
  content = λ c. c.0 ∷ c.1;
  head = λ c. c.0 ∷ c.1;
  free_header = λ c n. of_list (drop n (c.0 ∷ c.1));
  cat = λ c d. (c.0, c.1 ++ (d.0 ∷ d.1));
  alloc = alloc_list;
}

parts-PbufLaws : PbufLaws parts
parts-PbufLaws = record {
  head_first = λ c. ([], sym (append-nil (c.0 ∷ c.1)));
  head_some = λ c. omega arith;
  free_drop = λ c n. back (drop n (c.0 ∷ c.1));
  cat_both = λ c d. refl;
  alloc_all = λ s h. whole s h;
}
  where
    back : (s : List ℕ) → queued parts (of_list s) ≡ s
    back [] = refl
    back (b ∷ s) = refl

    whole : (s : List ℕ) → 0 < length s → parts.content (parts.alloc s) ≡ s
    whole [] h = absurd (omega arith)
    whole (b ∷ s) h = refl

-- Three bytes wait; the proxy takes two, and then no more for now.
abbrev waiting : TcpForward (ℕ × List ℕ)
waiting = record {
  pcb = true;
  proxy = true;
  proxyestab = true;
  sndq = none;
  rcvq = some (1, 2 ∷ 3 ∷ []);
  gc = 5;
  proxyeof = false;
  lwipeof = true;
  proxysendeof = false;
}

abbrev two_then_none : ℕ → List ℕ → Ret
two_then_none zero (a ∷ b ∷ s) = count 2
two_then_none zero s = errno 11
two_then_none (suc i) s = errno 11

two-SendLaws : SendLaws two_then_none
two-SendLaws zero [] n h e = cc
two-SendLaws zero (a ∷ []) n h e = cc
two-SendLaws zero (a ∷ b ∷ s) n h e = ground arith
two-SendLaws (suc i) s n h e = cc

abbrev out_calls : OutCalls
out_calls = record { send = two_then_none; shutdown = count 0; closes = true }

tcp_proxy_output-PassesOn_example :
    (t : TcpTurn (ℕ × List ℕ)) × (tcp_proxy_output parts empty_conf out_calls 3 waiting ≡ some t)
    × PassesOn parts waiting t
tcp_proxy_output-PassesOn_example =
    tcp_proxy_output-PassesOn parts empty_conf out_calls 3 waiting parts-PbufLaws two-SendLaws
      (omega arith)

-- Room for one part, of one byte.
abbrev in_calls : InCalls
in_calls = record {
  room = λ i. i == 0;
  recv = λ i. bytes (7 ∷ []);
  writes = λ i. true;
  closes = true;
}

tcp_proxy_input-TakesIn_example :
    (t : TcpTurn (ℕ × List ℕ)) × (tcp_proxy_input parts in_calls 2 waiting ≡ some t)
    × TakesIn parts waiting t
tcp_proxy_input-TakesIn_example =
    tcp_proxy_input-TakesIn parts in_calls 1 2 waiting parts-PbufLaws refl (omega arith)

tcp_forward-Ended_example :
    ((t : TcpTurn (ℕ × List ℕ)) × (tcp_proxy_output parts empty_conf out_calls 3 waiting ≡ some t)
      × Ended true t)
    × ((t : TcpTurn (ℕ × List ℕ)) × (tcp_proxy_input parts in_calls 3 waiting ≡ some t)
        × Ended true t)
tcp_forward-Ended_example =
    tcp_forward-Ended parts empty_conf in_calls out_calls 1 3 waiting parts-PbufLaws two-SendLaws
      refl (omega arith) (omega arith) refl refl

abbrev pending : UdpForward
pending = record {
  proxy = false;
  local_ip = v4 (10 ∷ 0 ∷ 0 ∷ 1 ∷ []);
  local_port = 53;
  rcvq = [];
  gc = 16;
}

-- Nine datagrams.
abbrev nine : List (List ℕ)
nine =
    (1 ∷ [])
    ∷ (2 ∷ [])
    ∷ (3 ∷ [])
    ∷ (4 ∷ [])
    ∷ (5 ∷ [])
    ∷ (6 ∷ [])
    ∷ (7 ∷ [])
    ∷ (8 ∷ [])
    ∷ (9 ∷ [])
    ∷ []

all_received-newest_example :
    (all_received (λ i s. count 0) nine pending).rcvq ≡ newest ([] ++ nine)
all_received-newest_example = all_received-newest (λ i s. count 0) nine [] pending refl refl

-- SOCKS5, with the forward of a query that has sixteen seconds left.
abbrev socks_conf : NspConf
socks_conf = record empty_conf { proxytype = socks5 }

abbrev tun : Netif
tun = record { ip4 = v4 (172 ∷ 23 ∷ 255 ∷ 254 ∷ []); ip6 = v4 [] }

udp_route-tcp_route_example : udp_route socks_conf tun (v4 (172 ∷ 23 ∷ 255 ∷ 254 ∷ [])) 53 ≡ (
    if is_gateway tun (v4 (172 ∷ 23 ∷ 255 ∷ 254 ∷ [])) && 53 == 53
    then via_or
        (redirected socks_conf.dnstype)
        (udp_like (tcp_route socks_conf tun (v4 (172 ∷ 23 ∷ 255 ∷ 254 ∷ []))))
    else udp_like (tcp_route socks_conf tun (v4 (172 ∷ 23 ∷ 255 ∷ 254 ∷ []))))
udp_route-tcp_route_example = udp_route-tcp_route socks_conf tun (v4 (172 ∷ 23 ∷ 255 ∷ 254 ∷ [])) 53

-- A first flow, whose association fails; then a second passes.
abbrev flow : Assoc
flow = core_udp_new socks_conf tun true false (v4 (10 ∷ 0 ∷ 0 ∷ 1 ∷ [])) 53 (assoc_init socks_conf)

flow_reached : Reach socks_conf socks_conf flow
flow_reached =
    next start
      (opened socks_conf (assoc_init socks_conf) tun true false (v4 (10 ∷ 0 ∷ 0 ∷ 1 ∷ [])) 53)

Reach-AssocValid_example : AssocValid socks_conf (second socks_conf true flow)
Reach-AssocValid_example = Reach-AssocValid (next flow_reached (ticked socks_conf flow true))

-- Two seconds of the countdown are left.
abbrev starved : Assoc
starved = record {
  udplst = pending ∷ [];
  udpassoc = false;
  assocready = false;
  assocretries = 1;
  assoccd = 2;
}

starved_valid : AssocValid socks_conf starved
starved_valid = record {
  there = λ _ r. cc (r);
  settled = λ r. cc (r);
  only_socks = λ s. cc (s);
  capped = omega arith;
}

starved-Starved : Starved socks_conf starved
starved-Starved = record {
  socks = refl;
  absent = refl;
  unready = refl;
  waiting = inl (refl, omega arith);
}

core_reassoc_tmr_retries_example :
    (3 ≤ 33)
    × ((seconds socks_conf true 3 starved).udpassoc ≡ true)
    × ((seconds socks_conf true 3 starved).assocretries ≡ 2 % 2 ^ 32)
core_reassoc_tmr_retries_example =
    core_reassoc_tmr_retries socks_conf true starved starved_valid starved-Starved

-- One TCP forward with five seconds left, and one UDP forward with sixteen.
abbrev two_forwards : Forwards (ℕ × List ℕ)
two_forwards = record { tcplst = waiting ∷ []; udplst = pending ∷ [] }

core_gc_tmr-idle_example :
    idle_seconds 6 two_forwards
    ≡ record { tcplst = tcp_left 6 (waiting ∷ []); udplst = udp_left 6 (pending ∷ []) }
core_gc_tmr-idle_example = core_gc_tmr-idle 6 two_forwards
