-- ===== src/Core/Tcp.antt =====
-- TCP forwarding of src/core.c: the queues of a connection between lwIP and a proxy. The calls of
-- lwIP and of the proxy are arguments: pbuf chains are a record of operations, and what each round of
-- a loop is told is a function of the round. A freed connection has a `closing`.
pub mod Receive
pub mod Output
pub mod Input
pub mod Ends
use nsproxy.Common.{
  ℕ, zero, suc, ◌+◌, ◌-◌, ◌*◌, ◌/◌, ◌%◌, ◌^◌, ◌≤◌, ◌<◌, bit_and, bit_or, ◌≡◌, refl, sym, ap, ◌∙◌,
  ◌≢◌, ◌↔◌, ◌⊎◌, inl, inr, Bool, true, false, not, ◌&&◌, ◌||◌, Option, none, some, List, [], ◌∷◌,
  ◌++◌, map, reverse, append-nil, append_assoc, arith, ltb, leb, ◌==◌, if◌then◌else◌, ltb→lt,
  lt→ltb, leb→le, ==_iff, ◌===◌, ===→eq, ===_refl, Bool-cases, Option-cases, ||_cases, ||_right,
  &&_parts, absorb, if_cases, leb-false, ltb-false, ==_false, le_of_ltb, lt_of_leb, length,
  get_elem?, get_or, take, drop, replicate, any, All, length-append, length-reverse,
  length-replicate, length-take, length-drop, take-append-drop, take-append, drop-append, take_all,
  get_elem?-append, get_elem?_below, any-append, All-append, any_mem, Some, any_iff, tail_eq,
}
use nsproxy.Rules.Conf.{NspConf, ProxyType, socks5, http, direct}
use nsproxy.Rules.Target.{IpAddr, is_direct_cidr_target}
use nsproxy.Skutils.{
  eagain, Ret, count, errno, Recv, bytes, failure, epollin, epollout, Mode, evclr, evset,
}

-- pbuf chains: all bytes, the payload of the first one, pbuf_free_header(), pbuf_cat(), and a new one
-- that holds some bytes.
pub record Pbufs : Type 1 where
  pub Chain : Type 0
  pub content : Chain → List ℕ
  pub head : Chain → List ℕ
  pub free_header : Chain → ℕ → Option Chain
  pub cat : Chain → Chain → Chain
  pub alloc : List ℕ → Chain

abbrev pub queued : (P : Pbufs) → Option P.Chain → List ℕ
queued P none = []
queued P (some c) = P.content c

-- A chain begins with the payload of its first part, which is not empty; freeing a header drops
-- bytes, and a chain of no bytes is freed whole; a new
-- part holds the bytes that it is made for, if there are any.
pub record PbufLaws (P : Pbufs) : Type 0 where
  pub head_first : (c : P.Chain) → (rest : List ℕ) × (P.content c ≡ P.head c ++ rest)
  pub head_some : (c : P.Chain) → 0 < length (P.head c)
  pub free_drop : (c : P.Chain) (n : ℕ) → queued P (P.free_header c n) ≡ drop n (P.content c)
  pub cat_both : (c d : P.Chain) → P.content (P.cat c d) ≡ P.content c ++ P.content d
  pub alloc_all : (s : List ℕ) → 0 < length s → P.content (P.alloc s) ≡ s

-- `struct tcp_forward`, without the links of the list; `pcb` and `proxy` say whether these are there.
pub record TcpForward (Chain : Type 0) : Type 0 where
  pub pcb : Bool
  pub proxy : Bool
  pub proxyestab : Bool
  pub sndq : Option Chain
  pub rcvq : Option Chain
  pub gc : ℕ
  pub proxyeof : Bool
  pub lwipeof : Bool
  pub proxysendeof : Bool

-- NSPROXY_TCP_IDLE_TIMEOUT.
abbrev pub idle_timeout : ℕ
idle_timeout = 7206

abbrev pub is_none : {A : Type 0} → Option A → Bool
is_none none = true
is_none (some x) = false

pub data PcbEnd : Type 0 where
  gone aborted closed : PcbEnd

-- How tcp_forward_destroy() leaves both sides.
pub record Closing : Type 0 where
  pub lwip : PcbEnd
  pub proxy_reset : Bool

-- `closes` says whether tcp_close() succeeds.
unfoldable pub tcp_forward_destroy : {C : Type 0} → Bool → TcpForward C → Bool → Closing
tcp_forward_destroy closes fwd force =
    let rst = not (is_none fwd.sndq) || not (is_none fwd.rcvq) in
    record {
      lwip =
          if fwd.pcb
          then (if force || rst then aborted else (if closes then closed else aborted))
          else gone;
      proxy_reset = fwd.proxy && (force || rst);
    }

pub data Err : Type 0 where
  ok abrt clsd : Err

-- What a handler did: the new state, the bytes passed on, the window given back to lwIP, the masks
-- asked of the proxy, whether the other side was half-closed, and how the connection was destroyed.
pub record TcpTurn (Chain : Type 0) : Type 0 where
  pub fwd : TcpForward Chain
  pub passed : List ℕ
  pub credit : ℕ
  pub masks : List (ℕ × Mode)
  pub half_closed : Bool
  pub closing : Option Closing
  pub err : Err

-- What the calls answer: the i-th proxy_send() with a payload, proxy_shutdown(), and tcp_close().
pub record OutCalls : Type 0 where
  pub send : ℕ → List ℕ → Ret
  pub shutdown : Ret
  pub closes : Bool

pub data LoopEnd : Type 0 where
  drained blocked broken : LoopEnd

pub record Sent (Chain : Type 0) : Type 0 where
  pub bytes_sent : List ℕ
  pub credit : ℕ
  pub queue : Option Chain
  pub how : LoopEnd

abbrev pub sent_more : {C : Type 0} → List ℕ → ℕ → Option (Sent C) → Option (Sent C)
sent_more s n none = none
sent_more s n (some r) =
    some (record {
      bytes_sent = s ++ r.bytes_sent;
      credit = n + r.credit;
      queue = r.queue;
      how = r.how;
    })

-- `while (fwd->rcvq)`, on fuel; `none` means that the fuel ran out.
unfoldable pub send_loop :
    (P : Pbufs) → (ℕ → List ℕ → Ret) → ℕ → ℕ → Option P.Chain → Option (Sent P.Chain)
send_loop P send fuel i none =
    some (record { bytes_sent = []; credit = 0; queue = none; how = drained })
send_loop P send zero i (some c) = none
send_loop P send (suc fuel) i (some c) = elim (send i (P.head c)) [
  | errno e ↦ some (record {
    bytes_sent = [];
    credit = 0;
    queue = some c;
    how = if e == eagain then blocked else broken;
  })
  | count n ↦ sent_more (take n (P.head c)) n (send_loop P send fuel (i + 1) (P.free_header c n))
]

abbrev pub turn_of : {C : Type 0} → TcpForward C → Sent C → List (ℕ × Mode) → TcpTurn C
turn_of fwd r masks = record {
  fwd = fwd;
  passed = r.bytes_sent;
  credit = r.credit;
  masks = masks;
  half_closed = false;
  closing = none;
  err = ok;
}

abbrev pub destroyed : {C : Type 0} → TcpTurn C → Bool → Bool → Err → TcpTurn C
destroyed t closes force e = record t {
  closing = some (tcp_forward_destroy closes t.fwd force);
  err = e;
}

-- The end of the sending side, once EOF is passed on.
abbrev pub sendeof_done : {C : Type 0} → Bool → TcpTurn C → TcpTurn C
sendeof_done closes t =
    let next : TcpTurn _ = record t { fwd = record t.fwd { proxysendeof = true } } in
    if t.fwd.proxyeof && is_none t.fwd.sndq then destroyed next closes false clsd else next

abbrev pub shut_proxy : {C : Type 0} → OutCalls → Ret → TcpTurn C → TcpTurn C
shut_proxy calls (errno e) t =
    if e == eagain
    then record t { masks = t.masks ++ ((epollout, evset) ∷ []) }
    else destroyed t calls.closes true abrt
shut_proxy calls (count n) t = sendeof_done calls.closes (record t { half_closed = true })

unfoldable pub after_drain : {C : Type 0} → NspConf → OutCalls → TcpTurn C → TcpTurn C
after_drain conf calls t =
    if t.fwd.lwipeof && not t.fwd.proxysendeof
    then (if not (conf.no_proxy_half_close == 0)
        then sendeof_done calls.closes t
        else shut_proxy calls calls.shutdown t)
    else t

abbrev pub after_send_loop :
    {C : Type 0} → NspConf → OutCalls → TcpForward C → Sent C → LoopEnd → TcpTurn C
after_send_loop conf calls fwd r blocked = turn_of fwd r ((epollout, evset) ∷ [])
after_send_loop conf calls fwd r broken = destroyed (turn_of fwd r []) calls.closes true abrt
after_send_loop conf calls fwd r drained =
    after_drain conf calls (turn_of fwd r ((epollout, evclr) ∷ []))

unfoldable pub tcp_proxy_output :
    (P : Pbufs) → NspConf → OutCalls → ℕ → TcpForward P.Chain → Option (TcpTurn P.Chain)
tcp_proxy_output P conf calls fuel fwd = elim (send_loop P calls.send fuel 0 fwd.rcvq) [
  | none ↦ none
  | some r ↦
      some (after_send_loop conf calls (record fwd { gc = idle_timeout; rcvq = r.queue }) r r.how)
]
