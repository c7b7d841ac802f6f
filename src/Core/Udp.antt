-- ===== src/Core/Udp.antt =====
-- UDP forwarding of src/core.c: udp_lwip_received(), udp_proxy_output() and udp_proxy_input(). A
-- datagram is the list of its bytes. What the calls of the proxy and of lwIP answer is an argument.
pub mod Queue
use nsproxy.Common.{
  ℕ, zero, suc, ◌+◌, ◌-◌, ◌*◌, ◌/◌, ◌%◌, ◌^◌, ◌≤◌, ◌<◌, bit_and, bit_or, ◌≡◌, refl, sym, ap, ◌∙◌,
  ◌≢◌, ◌↔◌, ◌⊎◌, inl, inr, Bool, true, false, not, ◌&&◌, ◌||◌, Option, none, some, List, [], ◌∷◌,
  ◌++◌, map, reverse, append-nil, append_assoc, arith, ltb, leb, ◌==◌, if◌then◌else◌, ltb→lt,
  lt→ltb, leb→le, ==_iff, ◌===◌, ===→eq, ===_refl, Bool-cases, Option-cases, ||_cases, ||_right,
  &&_parts, absorb, if_cases, leb-false, ltb-false, ==_false, le_of_ltb, lt_of_leb, length,
  get_elem?, get_or, take, drop, replicate, any, All, length-append, length-reverse,
  length-replicate, length-take, length-drop, take-append-drop, take-append, drop-append, take_all,
  get_elem?-append, get_elem?_below, any-append, All-append, any_mem, Some, any_iff, tail_eq,
}
use nsproxy.Rules.Conf.{NspConf}
use nsproxy.Skutils.{
  eagain, Ret, count, errno, Recv, bytes, failure, epollin, epollout, Mode, evclr, evset,
}
use nsproxy.Rules.Target.{IpAddr}
use nsproxy.Dns.Response.{dns_response_add_direct_cidrs}

-- The fields of `struct udp_forward`, with the local address and port of its pcb; `proxy` says
-- whether it is there.
pub record UdpForward : Type 0 where
  pub proxy : Bool
  pub local_ip : IpAddr
  pub local_port : ℕ
  pub rcvq : List (List ℕ)
  pub gc : ℕ

-- arraysizeof(fwd->rcvq)
abbrev pub queue_size : ℕ
queue_size = 8

-- NSPROXY_DNS_IDLE_TIMEOUT and NSPROXY_UDP_IDLE_TIMEOUT.
abbrev pub udp_timeout : ℕ → ℕ
udp_timeout port = if port == 53 then 16 else 302

-- A full queue drops its oldest datagram.
unfoldable pub udp_enqueue : List (List ℕ) → List ℕ → List (List ℕ)
udp_enqueue q p = if length q == queue_size then drop 1 q ++ (p ∷ []) else q ++ (p ∷ [])

-- The datagrams offered to the proxy, and whether the loop got through; `i` counts the calls.
unfoldable pub offer_all : (ℕ → List ℕ → Ret) → ℕ → List (List ℕ) → List (List ℕ) × Bool
offer_all send i [] = ([], true)
offer_all send i (p ∷ q) =
    let rest = offer_all send (i + 1) q in
    elim (send i p) [
      | count n ↦ (p ∷ rest.0, rest.1)
      | errno e ↦ if e == eagain then (p ∷ rest.0, rest.1) else (p ∷ [], false)
    ]

-- What a handler did: the new state, the datagrams offered to the other side, the masks asked of the proxy, and
-- whether the connection was destroyed.
pub record UdpTurn : Type 0 where
  pub fwd : UdpForward
  pub passed : List (List ℕ)
  pub masks : List (ℕ × Mode)
  pub destroyed : Bool

unfoldable pub udp_proxy_output : (ℕ → List ℕ → Ret) → UdpForward → UdpTurn
udp_proxy_output send fwd =
    let r = offer_all send 0 fwd.rcvq in
    let next : UdpForward = record fwd { gc = udp_timeout fwd.local_port } in
    if r.1
    then record {
      fwd = record next { rcvq = [] };
      passed = r.0;
      masks = (epollout, evclr) ∷ [];
      destroyed = false;
    }
    else record { fwd = next; passed = r.0; masks = []; destroyed = true }

unfoldable pub udp_lwip_received : (ℕ → List ℕ → Ret) → Option (List ℕ) → UdpForward → UdpTurn
udp_lwip_received send none fwd = record { fwd = fwd; passed = []; masks = []; destroyed = true }
udp_lwip_received send (some p) fwd =
    let next : UdpForward = record fwd { rcvq = udp_enqueue fwd.rcvq p } in
    if fwd.proxy
    then udp_proxy_output send next
    else record { fwd = next; passed = []; masks = []; destroyed = false }

-- What udp_send() of lwIP answers: ERR_OK, ERR_MEM, or another error.
pub data UdpSend : Type 0 where
  sent full refused : UdpSend

pub record UdpInput : Type 0 where
  pub conf : NspConf
  pub turn : UdpTurn

abbrev pub passed_more : List ℕ → Option UdpInput → Option UdpInput
passed_more p none = none
passed_more p (some r) =
    some (record { conf = r.conf; turn = record r.turn { passed = p ∷ r.turn.passed } })

abbrev pub learn : NspConf → UdpForward → List ℕ → NspConf
learn conf fwd p =
    if fwd.local_port == 53 then (dns_response_add_direct_cidrs conf p).conf else conf

abbrev udp_done : NspConf → UdpForward → List (List ℕ) → List (ℕ × Mode) → Bool → Option UdpInput
udp_done conf fwd passed masks dead = some (record {
  conf = conf;
  turn = record { fwd = fwd; passed = passed; masks = masks; destroyed = dead };
})

-- The loop over what proxy_recv() gives and udp_send() answers; `none` means that it asks for more.
unfoldable pub udp_input_loop : NspConf → UdpForward → List (Recv × UdpSend) → Option UdpInput
udp_input_loop conf fwd [] = none
udp_input_loop conf fwd ((failure e, a) ∷ rest) =
    if e == eagain
    then udp_done conf fwd [] ((epollin, evset) ∷ []) false
    else udp_done conf fwd [] [] true
udp_input_loop conf fwd ((bytes p, refused) ∷ rest) =
    udp_done (learn conf fwd p) fwd (p ∷ []) [] true
udp_input_loop conf fwd ((bytes p, _) ∷ rest) =
    passed_more p (udp_input_loop (learn conf fwd p) fwd rest)

unfoldable pub udp_proxy_input : NspConf → UdpForward → List (Recv × UdpSend) → Option UdpInput
udp_proxy_input conf fwd arrivals =
    udp_input_loop conf (record fwd { gc = udp_timeout fwd.local_port }) arrivals
