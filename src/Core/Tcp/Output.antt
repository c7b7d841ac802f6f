-- ===== src/Core/Tcp/Output.antt =====
-- What tcp_proxy_output() of src/core.c sends, and when it ends.
use nsproxy.Common.{
  ℕ, zero, suc, ◌+◌, ◌≤◌, ◌<◌, ◌≡◌, refl, sym, ap, ◌∙◌, ◌⊎◌, inl, inr, Bool, true, false, not, ◌&&◌,
  Option, none, some, List, [], ◌∷◌, ◌++◌, append_assoc, arith, ◌==◌, if◌then◌else◌, if_cases,
  length, take, drop, length-append, length-take, length-drop, take-append-drop,
}
use nsproxy.Rules.Conf.{NspConf}
use nsproxy.Skutils.{eagain, Ret, count, errno, epollout, evset, evclr}
use nsproxy.Core.Tcp.{
  is_none, destroyed, clsd, abrt, idle_timeout, turn_of, Pbufs, queued, PbufLaws, TcpForward,
  TcpTurn, OutCalls, LoopEnd, drained, blocked, broken, Sent, sent_more, send_loop, sendeof_done,
  shut_proxy, after_drain, after_send_loop, tcp_proxy_output,
}

-- send() of some bytes takes one byte at least and all at most, or it fails.
abbrev pub SendLaws : (ℕ → List ℕ → Ret) → Type 0
SendLaws send =
    (i : ℕ) (s : List ℕ) (n : ℕ) → 0 < length s → send i s ≡ count n → (0 < n) × (n ≤ length s)

-- The loop is left with data only if it is blocked or broken.
abbrev pub EndOk : {C : Type 0} → LoopEnd → Option C → Type 0
EndOk drained q = q ≡ none
EndOk blocked q = Unit {0}
EndOk broken q = Unit {0}

take_front : (n : ℕ) (s p : List ℕ) → n ≤ length s → take n (s ++ p) ≡ take n s
take_front zero s p h = refl
take_front (suc n) [] p h = absurd (omega arith)
take_front (suc n) (c ∷ s) p h = ap (◌∷◌ c) (take_front n s p (omega arith))

module _ (P : Pbufs) (laws : PbufLaws P) where
  -- A round's bytes are the front of the queue.
  front_of :
      (c : P.Chain) (n : ℕ)
      → n ≤ length (P.head c)
      → P.content c ≡ take n (P.head c) ++ queued P (P.free_header c n)
  front_of c n h =
      let (rest, e) = laws.head_first c in
      sym (take-append-drop n (P.content c))
      ∙ ap (λ s. s ++ drop n (P.content c)) (ap (take n) e ∙ take_front n (P.head c) rest h)
      ∙ ap (λ s. take n (P.head c) ++ s) (sym (laws.free_drop c n))

  some_content : (c : P.Chain) → 0 < length (P.content c)
  some_content c =
      let (rest, e) = laws.head_first c in
      omega (arith, laws.head_some c, ap length e, length-append (P.head c) rest)

  -- What is sent and what is left are the queue, and the credit counts what is sent.
  abbrev pub LoopOk : Option P.Chain → Option (Sent P.Chain) → Type 0
  LoopOk q o =
      (r : Sent P.Chain) × (o ≡ some r)
      × (queued P q ≡ r.bytes_sent ++ queued P r.queue)
      × (r.credit ≡ length r.bytes_sent)
      × EndOk r.how r.queue

  more_sent :
      (c : P.Chain) (n : ℕ) (o : Option (Sent P.Chain))
      → n ≤ length (P.head c)
      → LoopOk (P.free_header c n) o
      → LoopOk (some c) (sent_more (take n (P.head c)) n o)
  more_sent c n o h (r, e, all, credit, end) = (
    record {
      bytes_sent = take n (P.head c) ++ r.bytes_sent;
      credit = n + r.credit;
      queue = r.queue;
      how = r.how;
    },
    rw e refl,
    front_of c n h
        ∙ ap (λ s. take n (P.head c) ++ s) all
        ∙ sym (append_assoc (take n (P.head c)) r.bytes_sent (queued P r.queue)),
    omega (arith, credit, length-append (take n (P.head c)) r.bytes_sent, length-take n (P.head c)),
    end,
  )

  pub send_loop_lem :
      (send : ℕ → List ℕ → Ret) (fuel i : ℕ) (q : Option P.Chain)
      → SendLaws send
      → length (queued P q) ≤ fuel
      → LoopOk q (send_loop P send fuel i q)
  unfolding send_loop
  send_loop_lem send zero i none good h = (_, refl, refl, refl, refl)
  send_loop_lem send (suc fuel) i none good h = (_, refl, refl, refl, refl)
  send_loop_lem send zero i (some c) good h = absurd (omega (arith, some_content c))
  send_loop_lem send (suc fuel) i (some c) good h =
      go (send i (P.head c)) (λ n e. good i (P.head c) n (laws.head_some c) e)
        (λ n small. send_loop_lem send fuel (i + 1) (P.free_header c n) good small)
    where
      go :
          (a : Ret)
          → ((n : ℕ) → a ≡ count n → (0 < n) × (n ≤ length (P.head c)))
          → ((n : ℕ)
              → length (queued P (P.free_header c n)) ≤ fuel
              → LoopOk (P.free_header c n) (send_loop P send fuel (i + 1) (P.free_header c n)))
          → LoopOk (some c) (elim a as (λ _. Option (Sent P.Chain)) [
            | errno e ↦ some (record {
              bytes_sent = [];
              credit = 0;
              queue = some c;
              how = if e == eagain then blocked else broken;
            })
            | count n ↦
                sent_more (take n (P.head c)) n (send_loop P send fuel (i + 1) (P.free_header c n))
          ])
      go (errno e) f ih = (
        _,
        refl,
        refl,
        refl,
        if_cases (λ x. EndOk x (some c)) (e == eagain) blocked broken (λ _. tt) (λ _. tt),
      )
      go (count n) f ih =
          let (pos, small) = f n refl in
          more_sent c n _ small (
            ih n
              (omega (arith, h, pos, ap length (laws.free_drop c n), length-drop n (P.content c))))

-- Nothing but the marks of the end is changed by passing EOF on.
abbrev Kept : {C : Type 0} → TcpTurn C → TcpTurn C → Type 0
Kept t u = (u.passed ≡ t.passed) × (u.credit ≡ t.credit) × (u.fwd.rcvq ≡ t.fwd.rcvq)

sendeof_done-Kept :
    {C : Type 0} (closes : Bool) (t u : TcpTurn C) → Kept t u → Kept t (sendeof_done closes u)
sendeof_done-Kept closes t u k =
    let next : TcpTurn _ = record u { fwd = record u.fwd { proxysendeof = true } } in
    if_cases (Kept t) (u.fwd.proxyeof && is_none u.fwd.sndq) (destroyed next closes false clsd) next
      (λ _. k) (λ _. k)

shut_proxy-Kept :
    {C : Type 0} (calls : OutCalls) (a : Ret) (t : TcpTurn C) → Kept t (shut_proxy calls a t)
shut_proxy-Kept calls (errno e) t =
    if_cases (Kept t) (e == eagain) (record t { masks = t.masks ++ ((epollout, evset) ∷ []) })
      (destroyed t calls.closes true abrt) (λ _. (refl, refl, refl)) (λ _. (refl, refl, refl))
shut_proxy-Kept calls (count n) t =
    sendeof_done-Kept calls.closes t (record t { half_closed = true }) (refl, refl, refl)

after_drain-Kept :
    {C : Type 0} (conf : NspConf) (calls : OutCalls) (t : TcpTurn C)
    → Kept t (after_drain conf calls t)
unfolding after_drain
after_drain-Kept conf calls t =
    if_cases (Kept t) (t.fwd.lwipeof && not t.fwd.proxysendeof)
      (if not (conf.no_proxy_half_close == 0)
        then sendeof_done calls.closes t
        else shut_proxy calls calls.shutdown t)
      t
      (λ _.
        if_cases (Kept t) (not (conf.no_proxy_half_close == 0)) (sendeof_done calls.closes t)
          (shut_proxy calls calls.shutdown t)
          (λ _. sendeof_done-Kept calls.closes t t (refl, refl, refl))
          (λ _. shut_proxy-Kept calls calls.shutdown t))
      (λ _. (refl, refl, refl))

-- A turn that passes on the front of the receive queue, and EOF only once that is empty.
abbrev pub PassesOn : (P : Pbufs) → TcpForward P.Chain → TcpTurn P.Chain → Type 0
PassesOn P fwd t =
    (queued P fwd.rcvq ≡ t.passed ++ queued P t.fwd.rcvq)
    × (t.credit ≡ length t.passed)
    × ((t.half_closed ≡ false) ⊎ (t.fwd.rcvq ≡ none))
    × ((t.fwd.proxysendeof ≡ fwd.proxysendeof) ⊎ (t.fwd.rcvq ≡ none))

after_send_loop-PassesOn :
    (P : Pbufs) (conf : NspConf) (calls : OutCalls) (fwd : TcpForward P.Chain) (r : Sent P.Chain)
    (how : LoopEnd)
    → queued P fwd.rcvq ≡ r.bytes_sent ++ queued P r.queue
    → r.credit ≡ length r.bytes_sent
    → EndOk how r.queue
    → PassesOn P fwd
        (after_send_loop conf calls (record fwd { gc = idle_timeout; rcvq = r.queue }) r how)
after_send_loop-PassesOn P conf calls fwd r blocked all credit end =
    (all, credit, inl refl, inl refl)
after_send_loop-PassesOn P conf calls fwd r broken all credit end =
    (all, credit, inl refl, inl refl)
after_send_loop-PassesOn P conf calls fwd r drained all credit end =
    let t = turn_of (record fwd { gc = idle_timeout; rcvq = r.queue }) r ((epollout, evclr) ∷ []) in
    let (passed, back, queue) = after_drain-Kept conf calls t in
    (
      all ∙ joined passed queue,
      back ∙ credit ∙ ap length (sym passed),
      inr (queue ∙ end),
      inr (queue ∙ end),
    )
  where
    joined :
        {s u : List ℕ} {q c : Option P.Chain} → s ≡ u → q ≡ c → u ++ queued P c ≡ s ++ queued P q
    joined e f = rw (e, f) refl

-- tcp_proxy_output() ends, when each round sends at least one byte or fails: the bytes sent to the
-- proxy are the front of the receive queue, in order, and the rest stays; the window is given back
-- for the bytes sent and no more; the proxy is half-closed, and EOF marked as passed on, only with
-- an empty queue. The fuel is at least the number of bytes in the queue, and send() takes one byte
-- at least and all at most.
pub tcp_proxy_output-PassesOn :
    (P : Pbufs) (conf : NspConf) (calls : OutCalls) (fuel : ℕ) (fwd : TcpForward P.Chain)
    → PbufLaws P
    → SendLaws calls.send
    → length (queued P fwd.rcvq) ≤ fuel
    → (t : TcpTurn P.Chain) × (tcp_proxy_output P conf calls fuel fwd ≡ some t) × PassesOn P fwd t
unfolding tcp_proxy_output
tcp_proxy_output-PassesOn P conf calls fuel fwd laws good h =
    let (r, e, all, credit, end) = send_loop_lem P laws calls.send fuel 0 fwd.rcvq good h in
    (
      after_send_loop conf calls (record fwd { gc = idle_timeout; rcvq = r.queue }) r r.how,
      rw (e, tcp_proxy_output) refl,
      after_send_loop-PassesOn P conf calls fwd r r.how all credit end,
    )
