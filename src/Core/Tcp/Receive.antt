-- ===== src/Core/Tcp/Receive.antt =====
-- The other direction of a TCP connection of src/core.c: from the proxy to lwIP, with the callbacks of lwIP.
use nsproxy.Common.{
  ℕ, zero, suc, ◌+◌, Bool, true, false, ◌&&◌, Option, none, some, List, [], ◌∷◌, ◌++◌, ◌==◌,
  if◌then◌else◌,
}
use nsproxy.Rules.Conf.{NspConf}
use nsproxy.Skutils.{eagain, Recv, bytes, failure, epollin, Mode, evclr, evset}
use nsproxy.Core.Tcp.{
  Pbufs, TcpForward, idle_timeout, is_none, Closing, tcp_forward_destroy, ok, abrt, clsd, TcpTurn,
  OutCalls, LoopEnd, drained, blocked, broken, destroyed, tcp_proxy_output,
}

-- Whether the i-th test finds room in the send buffer, what the i-th proxy_recv() gives, whether the
-- i-th tcp_write() takes it, and whether tcp_close() succeeds.
pub record InCalls : Type 0 where
  pub room : ℕ → Bool
  pub recv : ℕ → Recv
  pub writes : ℕ → Bool
  pub closes : Bool

pub record Got (Chain : Type 0) : Type 0 where
  pub bytes_got : List ℕ
  pub queue : Option Chain
  pub eof : Bool
  pub how : LoopEnd

abbrev pub got_more : {C : Type 0} → List ℕ → Option (Got C) → Option (Got C)
got_more s none = none
got_more s (some r) =
    some (record { bytes_got = s ++ r.bytes_got; queue = r.queue; eof = r.eof; how = r.how })

abbrev pub enqueue : (P : Pbufs) → Option P.Chain → P.Chain → Option P.Chain
enqueue P none p = some p
enqueue P (some q) p = some (P.cat q p)

abbrev pub got_nothing : {C : Type 0} → Option C → Bool → LoopEnd → Option (Got C)
got_nothing q eof how = some (record { bytes_got = []; queue = q; eof = eof; how = how })

-- The loop of tcp_proxy_input() on fuel; it is entered only before EOF, and EOF ends it.
unfoldable pub recv_loop : (P : Pbufs) → InCalls → ℕ → ℕ → Option P.Chain → Option (Got P.Chain)
recv_loop P calls zero i q = none
recv_loop P calls (suc fuel) i q = elim (calls.room i) [
  | false ↦ got_nothing q false drained
  | true ↦ elim (calls.recv i) [
    | failure e ↦ got_nothing q false (if e == eagain then blocked else broken)
    | bytes [] ↦ got_nothing q true drained
    | bytes (b ∷ s) ↦ elim (calls.writes i) [
      | false ↦ got_nothing q false broken
      | true ↦ got_more (b ∷ s) (recv_loop P calls fuel (i + 1) (enqueue P q (P.alloc (b ∷ s))))
    ]
  ]
]

abbrev pub got_turn : {C : Type 0} → TcpForward C → Got C → List (ℕ × Mode) → TcpTurn C
got_turn fwd r masks = record {
  fwd = fwd;
  passed = r.bytes_got;
  credit = 0;
  masks = masks;
  half_closed = false;
  closing = none;
  err = ok;
}

unfoldable pub after_full : {C : Type 0} → Bool → TcpTurn C → TcpTurn C
after_full closes t =
    if t.fwd.proxyeof && is_none t.fwd.sndq
    then (let shut : TcpTurn _ = record t { half_closed = true } in
        if t.fwd.lwipeof && is_none t.fwd.rcvq then destroyed shut closes false clsd else shut)
    else t

abbrev pub after_recv_loop : {C : Type 0} → InCalls → TcpForward C → Got C → LoopEnd → TcpTurn C
after_recv_loop calls fwd r blocked = got_turn fwd r ((epollin, evset) ∷ [])
after_recv_loop calls fwd r broken = destroyed (got_turn fwd r []) calls.closes true abrt
after_recv_loop calls fwd r drained =
    after_full calls.closes (got_turn fwd r ((epollin, evclr) ∷ []))

unfoldable pub tcp_proxy_input :
    (P : Pbufs) → InCalls → ℕ → TcpForward P.Chain → Option (TcpTurn P.Chain)
tcp_proxy_input P calls fuel fwd =
    elim (if fwd.proxyeof
      then got_nothing fwd.sndq true drained
      else recv_loop P calls fuel 0 fwd.sndq) [
        | none ↦ none
        | some r ↦ some (
            after_recv_loop calls
              (record fwd { gc = idle_timeout; sndq = r.queue; proxyeof = r.eof }) r r.how)
      ]

abbrev pub free_acked : (P : Pbufs) → Option P.Chain → ℕ → Option P.Chain
free_acked P none n = none
free_acked P (some c) n = P.free_header c n

abbrev pub unchanged : {C : Type 0} → TcpForward C → TcpTurn C
unchanged fwd = record {
  fwd = fwd;
  passed = [];
  credit = 0;
  masks = [];
  half_closed = false;
  closing = none;
  err = ok;
}

-- `space` is the test on the send buffer of lwIP.
unfoldable pub tcp_lwip_sent :
    (P : Pbufs) → InCalls → ℕ → Bool → ℕ → TcpForward P.Chain → Option (TcpTurn P.Chain)
tcp_lwip_sent P calls fuel space len fwd =
    let next : TcpForward P.Chain = record fwd { sndq = free_acked P fwd.sndq len } in
    if space then tcp_proxy_input P calls fuel next else some (unchanged next)

abbrev pub take_in : (P : Pbufs) → Option P.Chain → TcpForward P.Chain → TcpForward P.Chain
take_in P none fwd = record fwd { lwipeof = true }
take_in P (some p) fwd = record fwd { rcvq = enqueue P fwd.rcvq p }

-- lwIP is told to ack at once exactly when `err` is `ok`.
unfoldable pub tcp_lwip_received :
    (P : Pbufs)
    → NspConf
    → OutCalls
    → ℕ
    → Option P.Chain
    → TcpForward P.Chain
    → Option (TcpTurn P.Chain)
tcp_lwip_received P conf calls fuel p fwd = tcp_proxy_output P conf calls fuel (take_in P p fwd)

unfoldable pub tcp_lwip_err : {C : Type 0} → TcpForward C → Closing
tcp_lwip_err fwd = tcp_forward_destroy false (record fwd { pcb = false }) true
