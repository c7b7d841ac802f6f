-- ===== src/Core/Tcp/Ends.antt =====
-- How tcp_proxy_output() and tcp_proxy_input() of src/core.c end a connection.
use nsproxy.Common.{
  ℕ, ◌≤◌, ◌<◌, ◌≡◌, refl, ap, ◌⊎◌, inl, inr, Bool, true, false, not, ◌&&◌, none, some, [], ◌∷◌,
  arith, ◌==◌, if◌then◌else◌, &&_parts, if_cases, length,
}
use nsproxy.Rules.Conf.{NspConf}
use nsproxy.Skutils.{eagain, Ret, count, errno, epollin, epollout, evclr}
use nsproxy.Core.Tcp.{
  Pbufs, PbufLaws, queued, TcpForward, TcpTurn, OutCalls, Sent, LoopEnd, drained, blocked, broken,
  ok, abrt, clsd, aborted, closed, idle_timeout, is_none, turn_of, tcp_forward_destroy,
  sendeof_done, shut_proxy, after_drain, after_send_loop, tcp_proxy_output,
}
use nsproxy.Core.Tcp.Receive.{
  InCalls, Got, got_turn, got_nothing, recv_loop, after_full, after_recv_loop, tcp_proxy_input,
}
use nsproxy.Core.Tcp.Output.{SendLaws, EndOk, send_loop_lem}
use nsproxy.Core.Tcp.Input.{GotOk, nothing-GotOk, recv_loop_lem, is_none-none}

-- EOF has come from both sides, and all data has gone.
abbrev pub Drained : {C : Type 0} → TcpForward C → Type 0
Drained fwd =
    (fwd.proxyeof ≡ true) × ((fwd.lwipeof ≡ true) × ((fwd.sndq ≡ none) × (fwd.rcvq ≡ none)))

-- A turn leaves the connection alone, ends it in order, or resets both sides; and it says which.
abbrev pub Ended : {C : Type 0} → Bool → TcpTurn C → Type 0
Ended closes t =
    ((t.err ≡ ok) × (t.closing ≡ none))
    ⊎ (((t.err ≡ clsd)
          × ((t.closing
                ≡ some (record { lwip = if closes then closed else aborted; proxy_reset = false }))
              × Drained t.fwd))
        ⊎ ((t.err ≡ abrt) × (t.closing ≡ some (record { lwip = aborted; proxy_reset = true }))))

module _ {C : Type 0} where
  -- Both sides are there.
  abbrev Both : TcpForward C → Type 0
  Both fwd = (fwd.pcb ≡ true) × (fwd.proxy ≡ true)

  abbrev Live : TcpTurn C → Type 0
  Live t = ((t.err ≡ ok) × (t.closing ≡ none)) × Both t.fwd

  forced :
      (closes : Bool) (fwd : TcpForward C)
      → Both fwd
      → tcp_forward_destroy closes fwd true ≡ record { lwip = aborted; proxy_reset = true }
  unfolding tcp_forward_destroy
  forced closes fwd b = rw (b.0, b.1) refl

  orderly :
      (closes : Bool) (fwd : TcpForward C)
      → Both fwd
      → fwd.sndq ≡ none
      → fwd.rcvq ≡ none
      → tcp_forward_destroy closes fwd false
        ≡ record { lwip = if closes then closed else aborted; proxy_reset = false }
  unfolding tcp_forward_destroy
  orderly closes fwd b s r = rw (b.0, b.1, s, r) refl

  sendeof_done-Ended :
      (closes : Bool) (t : TcpTurn C)
      → Live t
      → t.fwd.rcvq ≡ none
      → t.fwd.lwipeof ≡ true
      → Ended closes (sendeof_done closes t)
  sendeof_done-Ended closes t l r eof =
      if_cases (Ended closes) (t.fwd.proxyeof && is_none t.fwd.sndq) _ _
        (λ h.
          let (peof, none_left) = &&_parts t.fwd.proxyeof (is_none t.fwd.sndq) h in
          let s = is_none-none t.fwd.sndq none_left in
          inr (inl (refl, (ap some (orderly closes _ l.1 s r), (peof, (eof, (s, r)))))))
        (λ _. inl l.0)

  shut_proxy-Ended :
      (calls : OutCalls) (a : Ret) (t : TcpTurn C)
      → Live t
      → t.fwd.rcvq ≡ none
      → t.fwd.lwipeof ≡ true
      → Ended calls.closes (shut_proxy calls a t)
  shut_proxy-Ended calls (errno e) t l r eof =
      if_cases (Ended calls.closes) (e == eagain) _ _ (λ _. inl l.0)
        (λ _. inr (inr (refl, ap some (forced calls.closes t.fwd l.1))))
  shut_proxy-Ended calls (count n) t l r eof =
      sendeof_done-Ended calls.closes (record t { half_closed = true }) l r eof

  after_drain-Ended :
      (conf : NspConf) (calls : OutCalls) (t : TcpTurn C)
      → Live t
      → t.fwd.rcvq ≡ none
      → Ended calls.closes (after_drain conf calls t)
  unfolding after_drain
  after_drain-Ended conf calls t l r =
      if_cases (Ended calls.closes) (t.fwd.lwipeof && not t.fwd.proxysendeof) _ t
        (λ h.
          let eof = (&&_parts t.fwd.lwipeof (not t.fwd.proxysendeof) h).0 in
          if_cases (Ended calls.closes) (not (conf.no_proxy_half_close == 0)) _ _
            (λ _. sendeof_done-Ended calls.closes t l r eof)
            (λ _. shut_proxy-Ended calls calls.shutdown t l r eof))
        (λ _. inl l.0)

  after_send_loop-Ended :
      (conf : NspConf) (calls : OutCalls) (fwd : TcpForward C) (r : Sent C) (how : LoopEnd)
      → Both fwd
      → EndOk how fwd.rcvq
      → Ended calls.closes (after_send_loop conf calls fwd r how)
  after_send_loop-Ended conf calls fwd r blocked b e = inl (refl, refl)
  after_send_loop-Ended conf calls fwd r broken b e =
      inr (inr (refl, ap some (forced calls.closes fwd b)))
  after_send_loop-Ended conf calls fwd r drained b e =
      after_drain-Ended conf calls (turn_of fwd r ((epollout, evclr) ∷ [])) ((refl, refl), b) e

  after_full-Ended : (closes : Bool) (t : TcpTurn C) → Live t → Ended closes (after_full closes t)
  unfolding after_full
  after_full-Ended closes t l =
      if_cases (Ended closes) (t.fwd.proxyeof && is_none t.fwd.sndq) _ t
        (λ h.
          let (peof, nothing) = &&_parts t.fwd.proxyeof (is_none t.fwd.sndq) h in
          let s = is_none-none t.fwd.sndq nothing in
          if_cases (Ended closes) (t.fwd.lwipeof && is_none t.fwd.rcvq) _ _
            (λ k.
              let (leof, left) = &&_parts t.fwd.lwipeof (is_none t.fwd.rcvq) k in
              let r = is_none-none t.fwd.rcvq left in
              inr (inl (refl, (ap some (orderly closes t.fwd l.1 s r), (peof, (leof, (s, r)))))))
            (λ _. inl l.0))
        (λ _. inl l.0)

  after_recv_loop-Ended :
      (calls : InCalls) (fwd : TcpForward C) (r : Got C) (how : LoopEnd)
      → Both fwd
      → Ended calls.closes (after_recv_loop calls fwd r how)
  after_recv_loop-Ended calls fwd r blocked b = inl (refl, refl)
  after_recv_loop-Ended calls fwd r broken b = inr (inr (refl, ap some (forced calls.closes fwd b)))
  after_recv_loop-Ended calls fwd r drained b =
      after_full-Ended calls.closes (got_turn fwd r ((epollin, evclr) ∷ [])) ((refl, refl), b)

-- Both handlers, on a connection with both sides, with fuel for the bytes of the receive queue and for
-- the rounds until lwIP has no more room, and with a send() that takes one byte at least and all at
-- most: they end, and leave the connection alone without an error; or say that it is closed, only when
-- EOF has come from both sides and both queues are empty, the proxy is not reset, and lwIP's side is
-- closed, or aborted if tcp_close() fails; or say that it is aborted, and both sides are reset.
pub tcp_forward-Ended :
    (P : Pbufs) (conf : NspConf) (ins : InCalls) (outs : OutCalls) (stop fuel : ℕ)
    (fwd : TcpForward P.Chain)
    → PbufLaws P
    → SendLaws outs.send
    → ins.room stop ≡ false
    → stop < fuel
    → length (queued P fwd.rcvq) ≤ fuel
    → fwd.pcb ≡ true
    → fwd.proxy ≡ true
    → ((t : TcpTurn P.Chain) × (tcp_proxy_output P conf outs fuel fwd ≡ some t)
        × Ended outs.closes t)
      × ((t : TcpTurn P.Chain) × (tcp_proxy_input P ins fuel fwd ≡ some t) × Ended ins.closes t)
unfolding tcp_proxy_output tcp_proxy_input
tcp_forward-Ended P conf ins outs stop fuel fwd laws good full enough short here there =
    let (s, e, all, credit, end) = send_loop_lem P laws outs.send fuel 0 fwd.rcvq good short in
    let (g, f, queue) =
      if_cases (GotOk P laws fwd.sndq) fwd.proxyeof (got_nothing fwd.sndq true drained)
        (recv_loop P ins fuel 0 fwd.sndq) (λ _. nothing-GotOk P laws fwd.sndq true drained)
        (λ _.
          recv_loop_lem P laws ins stop fuel 0 fwd.sndq full (omega arith)
            (omega (arith, enough))) in
    (
      (
        after_send_loop conf outs (record fwd { gc = idle_timeout; rcvq = s.queue }) s s.how,
        rw (e, tcp_proxy_output) refl,
        after_send_loop-Ended conf outs _ s s.how (here, there) end,
      ),
      (
        after_recv_loop ins (record fwd { gc = idle_timeout; sndq = g.queue; proxyeof = g.eof }) g
            g.how,
        rw (f, tcp_proxy_input) refl,
        after_recv_loop-Ended ins _ g g.how (here, there),
      ),
    )
