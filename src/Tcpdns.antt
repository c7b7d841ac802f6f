-- ===== src/Tcpdns.antt =====
-- DNS over TCP, src/tcpdns.c: a master that looks like a UDP socket, with a worker for each query, which
-- has a TCP connection of its own. What a connection and the eventfd answer is an argument. The head
-- of the list of workers is the newest.
pub mod Worker
pub mod Done
pub mod Exchange
pub mod Invariant
mod Tests
use nsproxy.Common.{
  ℕ, zero, suc, ◌+◌, ◌-◌, ◌*◌, ◌/◌, ◌%◌, ◌^◌, ◌≤◌, ◌<◌, bit_and, bit_or, ◌≡◌, refl, sym, ap, ◌∙◌,
  ◌≢◌, ◌↔◌, ◌⊎◌, inl, inr, Bool, true, false, not, ◌&&◌, ◌||◌, Option, none, some, List, [], ◌∷◌,
  ◌++◌, map, reverse, append-nil, append_assoc, arith, ltb, leb, ◌==◌, if◌then◌else◌, ltb→lt,
  lt→ltb, leb→le, ==_iff, ◌===◌, ===→eq, ===_refl, Bool-cases, Option-cases, ||_cases, ||_right,
  &&_parts, absorb, if_cases, leb-false, ltb-false, ==_false, le_of_ltb, lt_of_leb, length,
  get_elem?, get_or, take, drop, replicate, any, All, length-append, length-reverse,
  length-replicate, length-take, length-drop, take-append-drop, take-append, drop-append, take_all,
  get_elem?-append, get_elem?_below, any-append, All-append, any_mem, Some, any_iff, tail_eq,
}
use nsproxy.Rules.Conf.{NspConf, ProxyType}
use nsproxy.Skutils.{
  Ret, count, errno, Recv, bytes, failure, eagain, einval, epollin, epollout, epollerr, Mode, evupd,
}

-- `struct tcpdns_worker`, with the `nbuffer` bytes of its buffer; `proxy` says whether it is there.
pub record TcpdnsWorker : Type 0 where
  pub proxy : Bool
  pub buffer : List ℕ
  pub done : Bool

-- sizeof(worker->buffer)
abbrev pub buffer_size : ℕ
buffer_size = 4096

-- E2BIG and EIO of Linux.
abbrev pub e2big : ℕ
e2big = 7

abbrev pub eio : ℕ
eio = 5

-- What a handler did: the worker, if it is not destroyed; the masks asked of its connection; the bytes
-- that it put out; and whether it has written to the eventfd.
pub record WorkerTurn : Type 0 where
  pub worker : Option TcpdnsWorker
  pub masks : List (ℕ × Mode)
  pub out : List ℕ
  pub noticed : Bool

-- What the calls answer: the connection's receive in so much room, its send, and whether the write to
-- the eventfd succeeds.
pub record WorkerCalls : Type 0 where
  pub recv : ℕ → Recv
  pub send : List ℕ → Ret
  pub notice : Bool

abbrev pub stays : TcpdnsWorker → WorkerTurn
stays w = record { worker = some w; masks = []; out = []; noticed = false }

abbrev pub destroyed : WorkerTurn
destroyed = record { worker = none; masks = []; out = []; noticed = false }

-- ntohs() of the two bytes at the front.
abbrev pub u16_at_front : List ℕ → ℕ
u16_at_front [] = 0
u16_at_front (b ∷ []) = b * 256
u16_at_front (b ∷ c ∷ s) = b * 256 + c

-- `nbuffer > 2 && nbuffer >= rsz + 2`
abbrev pub is_complete : List ℕ → Bool
is_complete buffer = ltb 2 (length buffer) && not (ltb (length buffer) (u16_at_front buffer + 2))

unfoldable pub worker_received : Bool → TcpdnsWorker → WorkerTurn
worker_received notice w =
    if is_complete w.buffer
    then (let over : TcpdnsWorker = record w { proxy = false; done = true } in
        if notice
        then record { worker = some over; masks = []; out = []; noticed = true }
        else destroyed)
    else stays w

unfoldable pub worker_input : WorkerCalls → TcpdnsWorker → WorkerTurn
worker_input calls w = elim (calls.recv (buffer_size - length w.buffer)) [
  | failure e ↦ if e == eagain then stays w else destroyed
  | bytes [] ↦ destroyed
  | bytes (b ∷ s) ↦ worker_received calls.notice (record w { buffer = w.buffer ++ (b ∷ s) })
]

abbrev pub worker_sent : ℕ → TcpdnsWorker → WorkerTurn
worker_sent n w =
    let rest = drop n w.buffer in
    record {
      worker = some (record w { buffer = rest });
      masks = if length rest == 0 then (epollin, evupd) ∷ [] else [];
      out = take n w.buffer;
      noticed = false;
    }

unfoldable pub worker_output : WorkerCalls → TcpdnsWorker → WorkerTurn
worker_output calls w = elim (calls.send w.buffer) [
  | errno e ↦ if e == eagain then stays w else destroyed
  | count n ↦ if n == 0 then destroyed else worker_sent n w
]

-- `event & mask`
abbrev pub has : ℕ → ℕ → Bool
has event mask = not (bit_and event mask == 0)

unfoldable pub tcpdns_worker_handle_event : WorkerCalls → ℕ → TcpdnsWorker → WorkerTurn
tcpdns_worker_handle_event calls event w =
    if has event epollerr
    then destroyed
    else (if has event epollin
        then worker_input calls w
        else (if has event epollout then worker_output calls w else stays w))

-- The length in two bytes, the high one first, and the message.
abbrev pub with_length : List ℕ → List ℕ
with_length s = (length s / 256 % 256) ∷ (length s % 256) ∷ s

pub record SendTurn : Type 0 where
  pub workers : List TcpdnsWorker
  pub ret : Ret

-- `made` says whether the connection to this name server is created, by the kind of proxy.
unfoldable pub tcpdns_send :
    NspConf → (ProxyType → List ℕ → ℕ → Bool) → List ℕ → List TcpdnsWorker → SendTurn
tcpdns_send conf made query workers =
    let worker : TcpdnsWorker = record { proxy = true; buffer = with_length query; done = false } in
    if ltb buffer_size (length query + 2)
    then record { workers = workers; ret = errno e2big }
    else (if not (made conf.proxytype conf.dnssrv conf.dnsport)
        then record { workers = workers; ret = errno einval }
        else record { workers = worker ∷ workers; ret = count (length query) })

-- The first worker that is done.
unfoldable pub first_done : List TcpdnsWorker → Option TcpdnsWorker
first_done [] = none
first_done (w ∷ ws) = if w.done then some w else first_done ws

-- The list without it.
unfoldable pub without_first_done : List TcpdnsWorker → List TcpdnsWorker
without_first_done [] = []
without_first_done (w ∷ ws) = if w.done then ws else w ∷ without_first_done ws

-- `assert_ok` says that the assertion, if it is reached, holds.
pub record RecvTurn : Type 0 where
  pub workers : List TcpdnsWorker
  pub ret : Recv
  pub assert_ok : Bool

abbrev pub answer_of : ℕ → List TcpdnsWorker → Option TcpdnsWorker → RecvTurn
answer_of size workers none = record { workers = workers; ret = failure eagain; assert_ok = true }
answer_of size workers (some w) = record {
  workers = without_first_done workers;
  ret = bytes (
      take (if leb (length w.buffer - 2) size then length w.buffer - 2 else size)
        (drop 2 w.buffer));
  assert_ok = leb 2 (length w.buffer);
}

-- `read` is the value read from the eventfd, or an error number.
unfoldable pub tcpdns_recv : Ret → ℕ → List TcpdnsWorker → RecvTurn
tcpdns_recv (errno e) size workers = record { workers = workers; ret = failure e; assert_ok = true }
tcpdns_recv (count v) size workers =
    if v == 1
    then answer_of size workers (first_done workers)
    else record { workers = workers; ret = failure eio; assert_ok = true }
