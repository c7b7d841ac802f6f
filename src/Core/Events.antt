-- ===== src/Core/Events.antt =====
-- The handlers of src/core.c for the events of a proxy: tcp_proxy_io_event() and udp_proxy_io_event(),
-- which are made of the handlers for one direction.
pub mod Tells
pub mod Relays
use nsproxy.Common.{
  ℕ, zero, suc, ◌+◌, ◌-◌, ◌*◌, ◌/◌, ◌%◌, ◌^◌, ◌≤◌, ◌<◌, bit_and, bit_or, ◌≡◌, refl, sym, ap, ◌∙◌,
  ◌≢◌, ◌↔◌, ◌⊎◌, inl, inr, Bool, true, false, not, ◌&&◌, ◌||◌, Option, none, some, List, [], ◌∷◌,
  ◌++◌, map, reverse, append-nil, append_assoc, arith, ltb, leb, ◌==◌, if◌then◌else◌, ltb→lt,
  lt→ltb, leb→le, ==_iff, ◌===◌, ===→eq, ===_refl, Bool-cases, Option-cases, ||_cases, ||_right,
  &&_parts, absorb, if_cases, leb-false, ltb-false, ==_false, le_of_ltb, lt_of_leb, length,
  get_elem?, get_or, take, drop, replicate, any, All, length-append, length-reverse,
  length-replicate, length-take, length-drop, take-append-drop, take-append, drop-append, take_all,
  get_elem?-append, get_elem?_below, any-append, All-append, any_mem, Some, any_iff, tail_eq,
}
use nsproxy.Rules.Conf.{NspConf}
use nsproxy.Skutils.{Ret, Recv, epollin, epollout, epollerr}
use nsproxy.Core.Tcp.{Pbufs, TcpForward, TcpTurn, OutCalls, Err, ok, abrt, clsd, tcp_proxy_output}
use nsproxy.Core.Tcp.Receive.{InCalls, tcp_proxy_input, unchanged}
use nsproxy.Core.Udp.{UdpForward, UdpSend, UdpTurn, UdpInput, udp_proxy_input, udp_proxy_output}

abbrev pub has : ℕ → ℕ → Bool
has events mask = not (bit_and events mask == 0)

abbrev pub no_error : Err → Bool
no_error ok = true
no_error abrt = false
no_error clsd = false

-- Both directions one after the other; whether the delayed SYN+ACK was sent; and whether the assertion
-- on EPOLLERR holds.
pub record TcpIo (Chain : Type 0) : Type 0 where
  pub input : TcpTurn Chain
  pub output : TcpTurn Chain
  pub fwd : TcpForward Chain
  pub flushed : Bool
  pub assert_ok : Bool

abbrev pub and_turn :
    {C : Type 0} {B : Type 0} → Option (TcpTurn C) → (TcpTurn C → Option B) → Option B
and_turn none f = none
and_turn (some t) f = f t

abbrev pub established : {C : Type 0} → ℕ → TcpTurn C → TcpTurn C → TcpIo C
established events i o =
    let first = no_error i.err && (no_error o.err && not o.fwd.proxyestab) in
    record {
      input = i;
      output = o;
      fwd = if first then record o.fwd { proxyestab = true } else o.fwd;
      flushed = first;
      assert_ok = not (has events epollerr) || (has events epollin || has events epollout);
    }

-- An error of the first direction means that the connection is gone: the second does nothing.
unfoldable pub tcp_proxy_io_event :
    (P : Pbufs) → NspConf → InCalls → OutCalls → ℕ → ℕ → TcpForward P.Chain → Option (TcpIo P.Chain)
tcp_proxy_io_event P conf ins outs fuel events fwd =
    and_turn (if has events epollin then tcp_proxy_input P ins fuel fwd else some (unchanged fwd))
      (λ i.
        and_turn
          (if no_error i.err && has events epollout
            then tcp_proxy_output P conf outs fuel i.fwd
            else some (unchanged i.fwd))
          (λ o. some (established events i o)))

-- What udp_proxy_io_event() does: the configuration learns from the input; `dead` says that the forward
-- is destroyed.
pub record UdpIo : Type 0 where
  pub conf : NspConf
  pub fwd : UdpForward
  pub to_lwip : List (List ℕ)
  pub to_proxy : List (List ℕ)
  pub dead : Bool

abbrev pub udp_no_input : NspConf → UdpForward → UdpInput
udp_no_input conf fwd = record {
  conf = conf;
  turn = record { fwd = fwd; passed = []; masks = []; destroyed = false };
}

abbrev pub udp_after_input : (ℕ → List ℕ → Ret) → ℕ → UdpInput → UdpIo
udp_after_input send events i =
    let o = udp_proxy_output send i.turn.fwd in
    if not i.turn.destroyed && has events epollout
    then record {
      conf = i.conf;
      fwd = o.fwd;
      to_lwip = i.turn.passed;
      to_proxy = o.passed;
      dead = o.destroyed || has events epollerr;
    }
    else record {
      conf = i.conf;
      fwd = i.turn.fwd;
      to_lwip = i.turn.passed;
      to_proxy = [];
      dead = i.turn.destroyed || has events epollerr;
    }

abbrev pub udp_and_then : Option UdpInput → (UdpInput → UdpIo) → Option UdpIo
udp_and_then none f = none
udp_and_then (some i) f = some (f i)

unfoldable pub udp_proxy_io_event :
    NspConf → (ℕ → List ℕ → Ret) → ℕ → UdpForward → List (Recv × UdpSend) → Option UdpIo
udp_proxy_io_event conf send events fwd arrivals =
    udp_and_then
      (if has events epollin
        then udp_proxy_input conf fwd arrivals
        else some (udp_no_input conf fwd))
      (udp_after_input send events)
