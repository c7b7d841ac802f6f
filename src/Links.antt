-- ===== src/Links.antt =====
-- The doubly linked lists of src/core.c and src/tcpdns.c: tcp_forward_create() and udp_forward_create()
-- put an object in front, tcp_forward_destroy() and udp_forward_destroy() take one out, and so do
-- tcpdns_send() and tcpdns_worker_destroy(). An address is a number, 0 is NULL.
pub mod Segment
pub mod Front
pub mod Refines
mod Tests
use nsproxy.Common.{
  ℕ, zero, suc, ◌+◌, ◌-◌, ◌*◌, ◌/◌, ◌%◌, ◌^◌, ◌≤◌, ◌<◌, bit_and, bit_or, ◌≡◌, refl, sym, ap, ◌∙◌,
  ◌≢◌, ◌↔◌, ◌⊎◌, inl, inr, Bool, true, false, not, ◌&&◌, ◌||◌, Option, none, some, List, [], ◌∷◌,
  ◌++◌, map, reverse, append-nil, append_assoc, arith, ltb, leb, ◌==◌, if◌then◌else◌, ltb→lt,
  lt→ltb, leb→le, ==_iff, ◌===◌, ===→eq, ===_refl, Bool-cases, Option-cases, ||_cases, ||_right,
  &&_parts, absorb, if_cases, leb-false, ltb-false, ==_false, le_of_ltb, lt_of_leb, length,
  get_elem?, get_or, take, drop, replicate, any, All, length-append, length-reverse,
  length-replicate, length-take, length-drop, take-append-drop, take-append, drop-append, take_all,
  get_elem?-append, get_elem?_below, any-append, All-append, any_mem, Some, any_iff, tail_eq,
}

-- The head of the list, and the links of the object at each address.
pub record Links : Type 0 where
  pub head : ℕ
  pub next : ℕ → ℕ
  pub prev : ℕ → ℕ

unfoldable pub set_at : (ℕ → ℕ) → ℕ → ℕ → ℕ → ℕ
set_at f p v a = if a == p then v else f a

-- The object comes from calloc(), so its `prev` is NULL.
unfoldable pub push_front : ℕ → Links → Links
push_front fwd l = record {
  head = fwd;
  next = set_at l.next fwd l.head;
  prev = if l.head == 0 then set_at l.prev fwd 0 else set_at (set_at l.prev fwd 0) l.head fwd;
}

abbrev pub set_prev_of_next : ℕ → Links → Links
set_prev_of_next fwd l =
    if l.next fwd == 0 then l else record l { prev = set_at l.prev (l.next fwd) (l.prev fwd) }

abbrev pub set_next_of_prev : ℕ → Links → Links
set_next_of_prev fwd l = record l { next = set_at l.next (l.prev fwd) (l.next fwd) }

-- What both functions of src/core.c do.
unfoldable pub take_out : ℕ → Links → Links
take_out fwd l =
    set_prev_of_next fwd
      (if l.prev fwd == 0 then record l { head = l.next fwd } else set_next_of_prev fwd l)

abbrev pub next_if_prev : ℕ → Links → Links
next_if_prev fwd l = if l.prev fwd == 0 then l else set_next_of_prev fwd l

-- What tcpdns_worker_destroy() does.
unfoldable pub take_out_worker : ℕ → Links → Links
take_out_worker worker l =
    let m = next_if_prev worker (set_prev_of_next worker l) in
    if m.head == worker then record m { head = m.next worker } else m
