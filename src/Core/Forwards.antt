-- ===== src/Core/Forwards.antt =====
-- The lists of forwards of src/core.c: core_tcp_new() and core_gc_tmr().
pub mod Idle
use nsproxy.Common.{
  ℕ, zero, suc, ◌+◌, ◌-◌, ◌*◌, ◌/◌, ◌%◌, ◌^◌, ◌≤◌, ◌<◌, bit_and, bit_or, ◌≡◌, refl, sym, ap, ◌∙◌,
  ◌≢◌, ◌↔◌, ◌⊎◌, inl, inr, Bool, true, false, not, ◌&&◌, ◌||◌, Option, none, some, List, [], ◌∷◌,
  ◌++◌, map, reverse, append-nil, append_assoc, arith, ltb, leb, ◌==◌, if◌then◌else◌, ltb→lt,
  lt→ltb, leb→le, ==_iff, ◌===◌, ===→eq, ===_refl, Bool-cases, Option-cases, ||_cases, ||_right,
  &&_parts, absorb, if_cases, leb-false, ltb-false, ==_false, le_of_ltb, lt_of_leb, length,
  get_elem?, get_or, take, drop, replicate, any, All, length-append, length-reverse,
  length-replicate, length-take, length-drop, take-append-drop, take-append, drop-append, take_all,
  get_elem?-append, get_elem?_below, any-append, All-append, any_mem, Some, any_iff, tail_eq,
}
use nsproxy.Rules.Conf.{NspConf}
use nsproxy.Rules.Target.{IpAddr}
use nsproxy.Core.Route.{Netif, Via, tcp_route}
use nsproxy.Core.Tcp.{TcpForward, Closing, Err, ok, abrt, tcp_forward_destroy, idle_timeout}
use nsproxy.Core.Udp.{UdpForward}
use nsproxy.Core.Assoc.{gc_udp}

-- The lists of `struct corectx`.
pub record Forwards (Chain : Type 0) : Type 0 where
  pub tcplst : List (TcpForward Chain)
  pub udplst : List UdpForward

-- What core_tcp_new() makes.
abbrev pub new_tcp_forward : {C : Type 0} → Bool → TcpForward C
new_tcp_forward proxy = record {
  pcb = true;
  proxy = proxy;
  proxyestab = false;
  sndq = none;
  rcvq = none;
  gc = idle_timeout;
  proxyeof = false;
  lwipeof = false;
  proxysendeof = false;
}

-- The list afterwards, how the forward was destroyed, and the answer to lwIP.
pub record TcpOpened (Chain : Type 0) : Type 0 where
  pub tcplst : List (TcpForward Chain)
  pub closing : Option Closing
  pub err : Err

-- `made` says whether the proxy for a route is created.
unfoldable pub core_tcp_new :
    {C : Type 0} → NspConf → Netif → (Via → Bool) → IpAddr → List (TcpForward C) → TcpOpened C
core_tcp_new {C} conf netif made addr fwds =
    if made (tcp_route conf netif addr)
    then record { tcplst = new_tcp_forward true ∷ fwds; closing = none; err = ok }
    else record {
      tcplst = fwds;
      closing = some (tcp_forward_destroy {C = C} true (new_tcp_forward false) true);
      err = abrt;
    }

-- `if (tcur->gc-- == 0)` destroy.
unfoldable pub gc_tcp : {C : Type 0} → List (TcpForward C) → List (TcpForward C)
gc_tcp [] = []
gc_tcp (f ∷ fs) = if f.gc == 0 then gc_tcp fs else record f { gc = f.gc - 1 } ∷ gc_tcp fs

unfoldable pub core_gc_tmr : {C : Type 0} → Forwards C → Forwards C
core_gc_tmr core = record { tcplst = gc_tcp core.tcplst; udplst = gc_udp core.udplst }
