-- ===== src/Skutils.antt =====
-- src/skutils.c: the socket helpers that the proxies share, and the constants that they pass. What a
-- system call returns is an argument.
pub mod Events
mod Tests
use nsproxy.Common.{
  ℕ, zero, suc, ◌+◌, ◌-◌, ◌*◌, ◌/◌, ◌%◌, ◌^◌, ◌≤◌, ◌<◌, bit_and, bit_or, ◌≡◌, refl, sym, ap, ◌∙◌,
  ◌≢◌, ◌↔◌, ◌⊎◌, inl, inr, Bool, true, false, not, ◌&&◌, ◌||◌, Option, none, some, List, [], ◌∷◌,
  ◌++◌, map, reverse, append-nil, append_assoc, arith, ltb, leb, ◌==◌, if◌then◌else◌, ltb→lt,
  lt→ltb, leb→le, ==_iff, ◌===◌, ===→eq, ===_refl, Bool-cases, Option-cases, ||_cases, ||_right,
  &&_parts, absorb, if_cases, leb-false, ltb-false, ==_false, le_of_ltb, lt_of_leb, length,
  get_elem?, get_or, take, drop, replicate, any, All, length-append, length-reverse,
  length-replicate, length-take, length-drop, take-append-drop, take-append, drop-append, take_all,
  get_elem?-append, get_elem?_below, any-append, All-append, any_mem, Some, any_iff, tail_eq,
}

-- EAGAIN, EINVAL, ENOENT, EEXIST, ECONNABORTED and EINPROGRESS of Linux.
abbrev pub eagain : ℕ
eagain = 11

abbrev pub einval : ℕ
einval = 22

abbrev pub enoent : ℕ
enoent = 2

abbrev pub eexist : ℕ
eexist = 17

abbrev pub econnaborted : ℕ
econnaborted = 103

abbrev pub einprogress : ℕ
einprogress = 115

-- A ssize_t that is a count, or an error number with its sign turned.
pub data Ret : Type 0 where
  count errno : ℕ → Ret

-- What recv() gives: bytes (none at the end of the stream), or an error number.
pub data Recv : Type 0 where
  bytes : List ℕ → Recv
  failure : ℕ → Recv

abbrev pub epollin : ℕ
epollin = 1

abbrev pub epollout : ℕ
epollout = 4

abbrev pub epollerr : ℕ
epollerr = 8

abbrev pub epollhup : ℕ
epollhup = 16

-- EVCLR, EVSET and EVUPD of src/proxy.h; any other mode is refused.
pub data Mode : Type 0 where
  evclr evset evupd other : Mode

pub data Op : Type 0 where
  add del modify : Op

-- A call of loop_epoll_ctl(): the operation and the mask.
pub record Ctl : Type 0 where
  pub op : Op
  pub mask : ℕ

-- The complement of a 32-bit mask.
abbrev pub complement : ℕ → ℕ
complement m = 0xffff_ffff - m

pub new_events : ℕ → ℕ → Mode → Option ℕ
new_events old mask evclr = some (bit_and old (complement mask))
new_events old mask evset = some (bit_or old mask)
new_events old mask evupd = some mask
new_events old mask other = none

pub choose_op : ℕ → ℕ → Op
choose_op old new = if old == 0 then add else (if new == 0 then del else modify)

-- What skutils_evctl() leaves: the return value, `*events`, and the call that it made, if any.
pub record EvCtl : Type 0 where
  pub ret : Ret
  pub events : ℕ
  pub call : Option Ctl

-- `ctl` answers loop_epoll_ctl(): 0, or an error number.
pub apply_events : (Ctl → ℕ) → ℕ → Option ℕ → EvCtl
unfolding choose_op
apply_events ctl old none = record { ret = errno einval; events = old; call = none }
apply_events ctl old (some new) =
    if old == new
    then record { ret = count 0; events = old; call = none }
    else (let c : Ctl = record { op = choose_op old new; mask = new } in
        if ctl c == 0
        then record { ret = count 0; events = new; call = some c }
        else record { ret = errno (ctl c); events = old; call = some c })

unfoldable pub skutils_evctl : (Ctl → ℕ) → ℕ → ℕ → Mode → EvCtl
unfolding new_events apply_events
skutils_evctl ctl events mask mode = apply_events ctl events (new_events events mask mode)

-- The counters of `struct skinfo`.
pub record SkInfo : Type 0 where
  pub nsent : ℕ
  pub nread : ℕ

-- `result` is what send() or sendmsg() gives.
unfoldable pub skutils_send : SkInfo → Ret → SkInfo × Ret
skutils_send info (count n) = (record info { nsent = info.nsent + n }, count n)
skutils_send info (errno e) = (info, errno e)

unfoldable pub skutils_recv : SkInfo → Recv → SkInfo × Recv
skutils_recv info (bytes s) = (record info { nread = info.nread + length s }, bytes s)
skutils_recv info (failure e) = (info, failure e)
