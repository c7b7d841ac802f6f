-- ===== src/Core/Events/Tells.antt =====
-- What the handlers of src/core.c for one direction of a TCP connection return.
use nsproxy.Common.{◌≡◌, refl, ap, Bool, true, not, ◌&&◌, Option, none, some, ◌==◌, if_cases}
use nsproxy.Rules.Conf.{NspConf}
use nsproxy.Skutils.{Ret, count, errno, eagain}
use nsproxy.Core.Tcp.{
  TcpForward, TcpTurn, OutCalls, Sent, LoopEnd, drained, blocked, broken, sendeof_done, shut_proxy,
  after_drain, after_send_loop, is_none,
}
use nsproxy.Core.Tcp.Receive.{InCalls, Got, after_full, after_recv_loop}
use nsproxy.Core.Events.{no_error}

-- A handler returns an error exactly when it has destroyed the connection, and it leaves alone whether
-- the SYN+ACK is sent.
abbrev pub Tells : {C : Type 0} → Bool → TcpTurn C → Type 0
Tells estab t = (no_error t.err ≡ is_none t.closing) × (t.fwd.proxyestab ≡ estab)

abbrev some_or : {C : Type 0} → TcpTurn C → Option (TcpTurn C) → TcpTurn C
some_or d none = d
some_or d (some t) = t

pub some_inj : {C : Type 0} {a b : TcpTurn C} → some a ≡ some b → a ≡ b
some_inj {C} {a} h = ap (some_or a) h

module _ {C : Type 0} (estab : Bool) where
  sendeof_done-Tells :
      (closes : Bool) (t : TcpTurn C) → Tells estab t → Tells estab (sendeof_done closes t)
  sendeof_done-Tells closes t h =
      if_cases (Tells estab) (t.fwd.proxyeof && is_none t.fwd.sndq) _ _ (λ _. (refl, h.1)) (λ _. h)

  shut_proxy-Tells :
      (calls : OutCalls) (r : Ret) (t : TcpTurn C)
      → Tells estab t
      → Tells estab (shut_proxy calls r t)
  shut_proxy-Tells calls (errno e) t h =
      if_cases (Tells estab) (e == eagain) _ _ (λ _. h) (λ _. (refl, h.1))
  shut_proxy-Tells calls (count n) t h =
      sendeof_done-Tells calls.closes (record t { half_closed = true }) h

  after_drain-Tells :
      (conf : NspConf) (calls : OutCalls) (t : TcpTurn C)
      → Tells estab t
      → Tells estab (after_drain conf calls t)
  unfolding after_drain
  after_drain-Tells conf calls t h =
      if_cases (Tells estab) (t.fwd.lwipeof && not t.fwd.proxysendeof) _ t
        (λ _.
          if_cases (Tells estab) (not (conf.no_proxy_half_close == 0)) _ _
            (λ _. sendeof_done-Tells calls.closes t h)
            (λ _. shut_proxy-Tells calls calls.shutdown t h))
        (λ _. h)

  pub after_send_loop-Tells :
      (conf : NspConf) (calls : OutCalls) (fwd : TcpForward C) (r : Sent C) (how : LoopEnd)
      → fwd.proxyestab ≡ estab
      → Tells estab (after_send_loop conf calls fwd r how)
  after_send_loop-Tells conf calls fwd r blocked e = (refl, e)
  after_send_loop-Tells conf calls fwd r broken e = (refl, e)
  after_send_loop-Tells conf calls fwd r drained e = after_drain-Tells conf calls _ (refl, e)

  after_full-Tells :
      (closes : Bool) (t : TcpTurn C) → Tells estab t → Tells estab (after_full closes t)
  unfolding after_full
  after_full-Tells closes t h =
      if_cases (Tells estab) (t.fwd.proxyeof && is_none t.fwd.sndq) _ t
        (λ _.
          if_cases (Tells estab) (t.fwd.lwipeof && is_none t.fwd.rcvq) _ _ (λ _. (refl, h.1))
            (λ _. h))
        (λ _. h)

  pub after_recv_loop-Tells :
      (calls : InCalls) (fwd : TcpForward C) (r : Got C) (how : LoopEnd)
      → fwd.proxyestab ≡ estab
      → Tells estab (after_recv_loop calls fwd r how)
  after_recv_loop-Tells calls fwd r blocked e = (refl, e)
  after_recv_loop-Tells calls fwd r broken e = (refl, e)
  after_recv_loop-Tells calls fwd r drained e = after_full-Tells calls.closes _ (refl, e)

-- The receive queue is not touched by the other direction.
after_full_rcvq :
    {C : Type 0} (closes : Bool) (t : TcpTurn C) → (after_full closes t).fwd.rcvq ≡ t.fwd.rcvq
unfolding after_full
after_full_rcvq closes t =
    if_cases (λ (u : TcpTurn _). u.fwd.rcvq ≡ t.fwd.rcvq) (t.fwd.proxyeof && is_none t.fwd.sndq) _ t
      (λ _.
        if_cases (λ (u : TcpTurn _). u.fwd.rcvq ≡ t.fwd.rcvq) (t.fwd.lwipeof && is_none t.fwd.rcvq)
          _ _ (λ _. refl) (λ _. refl))
      (λ _. refl)

pub after_recv_loop_rcvq :
    {C : Type 0} (calls : InCalls) (fwd : TcpForward C) (r : Got C) (how : LoopEnd)
    → (after_recv_loop calls fwd r how).fwd.rcvq ≡ fwd.rcvq
after_recv_loop_rcvq calls fwd r blocked = refl
after_recv_loop_rcvq calls fwd r broken = refl
after_recv_loop_rcvq calls fwd r drained = after_full_rcvq calls.closes _
