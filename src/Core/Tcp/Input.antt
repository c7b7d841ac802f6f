-- ===== src/Core/Tcp/Input.antt =====
-- What tcp_proxy_input() of src/core.c takes in, when it ends, and how a connection is destroyed.
use nsproxy.Common.{
  ℕ, zero, suc, ◌+◌, ◌≤◌, ◌<◌, ◌≡◌, refl, sym, ap, ◌∙◌, ◌↔◌, ◌⊎◌, inl, inr, Bool, true, false, ◌&&◌,
  Option, none, some, List, [], ◌∷◌, ◌++◌, append-nil, append_assoc, arith, ◌==◌, if◌then◌else◌,
  ==_iff, Bool-cases, &&_parts, if_cases, length,
}
use nsproxy.Skutils.{eagain, Recv, bytes, failure, epollin, evclr}
use nsproxy.Core.Tcp.{
  Pbufs, queued, PbufLaws, TcpForward, TcpTurn, LoopEnd, drained, blocked, broken, idle_timeout,
  is_none, destroyed, clsd, closed, aborted, gone, tcp_forward_destroy,
}
use nsproxy.Core.Tcp.Receive.{
  InCalls, Got, got_more, enqueue, got_nothing, recv_loop, after_full, after_recv_loop,
  tcp_proxy_input, got_turn, tcp_lwip_err,
}

module _ (P : Pbufs) (laws : PbufLaws P) where
  abbrev pub GotOk : Option P.Chain → Option (Got P.Chain) → Type 0
  GotOk q o = (r : Got P.Chain) × (o ≡ some r) × (queued P r.queue ≡ queued P q ++ r.bytes_got)

  enqueue-queued :
      (q : Option P.Chain) (s : List ℕ)
      → 0 < length s
      → queued P (enqueue P q (P.alloc s)) ≡ queued P q ++ s
  enqueue-queued none s h = laws.alloc_all s h
  enqueue-queued (some c) s h =
      laws.cat_both c (P.alloc s) ∙ ap (λ x. P.content c ++ x) (laws.alloc_all s h)

  pub nothing-GotOk :
      (q : Option P.Chain) (eof : Bool) (how : LoopEnd) → GotOk q (got_nothing q eof how)
  nothing-GotOk q eof how = (_, refl, sym (append-nil (queued P q)))

  more-GotOk :
      (q : Option P.Chain) (s : List ℕ) (o : Option (Got P.Chain))
      → 0 < length s
      → GotOk (enqueue P q (P.alloc s)) o
      → GotOk q (got_more s o)
  more-GotOk q s o h (r, e, all) = (
    record { bytes_got = s ++ r.bytes_got; queue = r.queue; eof = r.eof; how = r.how },
    rw e refl,
    all
        ∙ ap (λ x. x ++ r.bytes_got) (enqueue-queued q s h)
        ∙ append_assoc (queued P q) s r.bytes_got,
  )

  pub recv_loop_lem :
      (calls : InCalls) (stop fuel i : ℕ) (q : Option P.Chain)
      → calls.room stop ≡ false
      → i ≤ stop
      → stop < i + fuel
      → GotOk q (recv_loop P calls fuel i q)
  unfolding recv_loop
  recv_loop_lem calls stop zero i q full h k = absurd (omega arith)
  recv_loop_lem calls stop (suc fuel) i q full h k =
      go (calls.room i) (calls.recv i) (calls.writes i) refl (λ open_now s.
        recv_loop_lem calls stop fuel (i + 1) (enqueue P q (P.alloc s)) full (before open_now)
          (omega arith))
    where
      before : calls.room i ≡ true → i + 1 ≤ stop
      before open_now = elim (Bool-cases (i == stop)) [
        | inl same ↦ cc (open_now, full, (==_iff i stop).0 same)
        | inr differs ↦ ground arith
      ]

      go :
          (room : Bool) (got : Recv) (written : Bool)
          → calls.room i ≡ room
          → (calls.room i ≡ true
              → (s : List ℕ)
              → GotOk
                  (enqueue P q (P.alloc s))
                  (recv_loop P calls fuel (i + 1) (enqueue P q (P.alloc s))))
          → GotOk q (elim room as (λ _. Option (Got P.Chain)) [
            | false ↦ got_nothing q false drained
            | true ↦ elim got as (λ _. Option (Got P.Chain)) [
              | failure e ↦ got_nothing q false (if e == eagain then blocked else broken)
              | bytes [] ↦ got_nothing q true drained
              | bytes (b ∷ s) ↦ elim written as (λ _. Option (Got P.Chain)) [
                | false ↦ got_nothing q false broken
                | true ↦
                    got_more
                      (b ∷ s)
                      (recv_loop P calls fuel (i + 1) (enqueue P q (P.alloc (b ∷ s))))
              ]
            ]
          ])
      go false got written e ih = nothing-GotOk q false drained
      go true (failure x) written e ih = nothing-GotOk q false _
      go true (bytes []) written e ih = nothing-GotOk q true drained
      go true (bytes (b ∷ s)) false e ih = nothing-GotOk q false broken
      go true (bytes (b ∷ s)) true e ih = more-GotOk q (b ∷ s) _ (omega arith) (ih e (b ∷ s))

-- A turn that puts the bytes it passed to lwIP behind the send queue, and half-closes lwIP only after
-- EOF with an empty queue.
abbrev pub TakesIn : (P : Pbufs) → TcpForward P.Chain → TcpTurn P.Chain → Type 0
TakesIn P fwd t =
    (queued P t.fwd.sndq ≡ queued P fwd.sndq ++ t.passed)
    × ((t.half_closed ≡ false) ⊎ ((t.fwd.proxyeof ≡ true) × (t.fwd.sndq ≡ none)))

pub is_none-none : {A : Type 0} (o : Option A) → is_none o ≡ true → o ≡ none
is_none-none none h = refl
is_none-none (some x) h = cc

after_full-TakesIn :
    (P : Pbufs) (fwd : TcpForward P.Chain) (closes : Bool) (t : TcpTurn P.Chain)
    → queued P t.fwd.sndq ≡ queued P fwd.sndq ++ t.passed
    → t.half_closed ≡ false
    → TakesIn P fwd (after_full closes t)
unfolding after_full
after_full-TakesIn P fwd closes t all still =
    let shut : TcpTurn P.Chain = record t { half_closed = true } in
    if_cases (TakesIn P fwd) (t.fwd.proxyeof && is_none t.fwd.sndq)
      (if t.fwd.lwipeof && is_none t.fwd.rcvq then destroyed shut closes false clsd else shut) t
      (λ e.
        let (eof, empty) = &&_parts t.fwd.proxyeof (is_none t.fwd.sndq) e in
        let done : TakesIn P fwd shut = (all, inr (eof, is_none-none t.fwd.sndq empty)) in
        if_cases (TakesIn P fwd) (t.fwd.lwipeof && is_none t.fwd.rcvq)
          (destroyed shut closes false clsd) shut (λ _. done) (λ _. done))
      (λ _. (all, inl still))

after_recv_loop-TakesIn :
    (P : Pbufs) (calls : InCalls) (fwd : TcpForward P.Chain) (r : Got P.Chain) (how : LoopEnd)
    → queued P r.queue ≡ queued P fwd.sndq ++ r.bytes_got
    → TakesIn P fwd (
        after_recv_loop calls
          (record fwd { gc = idle_timeout; sndq = r.queue; proxyeof = r.eof })
          r
          how)
after_recv_loop-TakesIn P calls fwd r blocked all = (all, inl refl)
after_recv_loop-TakesIn P calls fwd r broken all = (all, inl refl)
after_recv_loop-TakesIn P calls fwd r drained all =
    after_full-TakesIn P fwd calls.closes
      (got_turn (record fwd { gc = idle_timeout; sndq = r.queue; proxyeof = r.eof }) r
        ((epollin, evclr) ∷ []))
      all refl

-- tcp_proxy_input() ends, when lwIP has no more room at some round within the fuel: the bytes given
-- to tcp_write() stand behind the old send queue, in order and each once, until they are acked, and
-- lwIP is half-closed only after EOF from the proxy and with an empty send queue.
pub tcp_proxy_input-TakesIn :
    (P : Pbufs) (calls : InCalls) (stop fuel : ℕ) (fwd : TcpForward P.Chain)
    → PbufLaws P
    → calls.room stop ≡ false
    → stop < fuel
    → (t : TcpTurn P.Chain) × (tcp_proxy_input P calls fuel fwd ≡ some t) × TakesIn P fwd t
unfolding tcp_proxy_input
tcp_proxy_input-TakesIn P calls stop fuel fwd laws full h =
    let (r, e, all) =
      if_cases (GotOk P laws fwd.sndq) fwd.proxyeof (got_nothing fwd.sndq true drained)
        (recv_loop P calls fuel 0 fwd.sndq) (λ _. nothing-GotOk P laws fwd.sndq true drained)
        (λ _. recv_loop_lem P laws calls stop fuel 0 fwd.sndq full (omega arith) (omega arith)) in
    (
      after_recv_loop calls (record fwd { gc = idle_timeout; sndq = r.queue; proxyeof = r.eof }) r
          r.how,
      rw (e, tcp_proxy_input) refl,
      after_recv_loop-TakesIn P calls fwd r r.how all,
    )

-- Nobody forces it, and no data is left: the connection may end in order.
abbrev Orderly : {C : Type 0} → TcpForward C → Bool → Type 0
Orderly fwd force = (force ≡ false) × ((fwd.sndq ≡ none) × (fwd.rcvq ≡ none))

-- The destruction of a connection between lwIP and a proxy, whether tcp_close() succeeds or not. The
-- proxy is reset unless nobody forces it and both queues are empty. lwIP's side is closed in order
-- exactly when the proxy is not reset and tcp_close() succeeds, and aborted exactly when the proxy is
-- reset or tcp_close() fails. After an error that lwIP reports, its side, which is gone, is left
-- alone, and the proxy is reset.
tcp_forward_destroy_iff :
    {C : Type 0} (closes : Bool) (fwd : TcpForward C) (force : Bool)
    → fwd.pcb ≡ true
    → fwd.proxy ≡ true
    → let c = tcp_forward_destroy closes fwd force in
      ((c.proxy_reset ≡ false) ↔ Orderly fwd force)
      × (((c.lwip ≡ closed) ↔ (Orderly fwd force × (closes ≡ true)))
          × (((c.lwip ≡ aborted) ↔ ((c.proxy_reset ≡ true) ⊎ (closes ≡ false)))
              × (((tcp_lwip_err fwd).lwip ≡ gone) × ((tcp_lwip_err fwd).proxy_reset ≡ true))))
unfolding tcp_forward_destroy tcp_lwip_err
tcp_forward_destroy_iff closes fwd force p q = ground arith
