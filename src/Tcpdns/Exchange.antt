-- ===== src/Tcpdns/Exchange.antt =====
-- A query and its answer through src/tcpdns.c, however the connection cuts them into pieces.
use nsproxy.Common.{
  ℕ, zero, suc, ◌+◌, ◌-◌, ◌≤◌, ◌<◌, ◌≡◌, refl, sym, ap, ◌∙◌, inl, inr, Bool, true, false, Option,
  none, some, List, [], ◌∷◌, ◌++◌, append-nil, append_assoc, arith, ltb, leb, ◌==◌, if◌then◌else◌,
  ltb→lt, lt→ltb, Bool-cases, ltb-false, ==_false, length, take, drop, All, length-append,
  length-drop, take-append-drop, take_all,
}
use nsproxy.Rules.Conf.{NspConf, ProxyType}
use nsproxy.Skutils.{count, errno, bytes, failure, eagain, epollin, epollout, Mode, evupd}
use nsproxy.Tcpdns.{
  TcpdnsWorker, buffer_size, WorkerTurn, WorkerCalls, u16_at_front, is_complete, worker_received,
  worker_input, worker_sent, worker_output, tcpdns_worker_handle_event, with_length, tcpdns_send,
  tcpdns_recv, first_done, without_first_done,
}
use nsproxy.Tcpdns.Worker.{u16-with_length}
use nsproxy.Tcpdns.Done.{le→leb, cut_at}

abbrev pub concat : List (List ℕ) → List ℕ
concat [] = []
concat (s ∷ ss) = s ++ concat ss

abbrev pub sum : List ℕ → ℕ
sum [] = 0
sum (n ∷ ns) = n + sum ns

-- What EPOLLOUT does while the connection takes so many bytes each time: the bytes put out, and the
-- worker and the masks afterwards.
pub record Sending : Type 0 where
  pub out : List ℕ
  pub masks : List (ℕ × Mode)
  pub worker : Option TcpdnsWorker

abbrev pub sends_calls : ℕ → WorkerCalls
sends_calls n = record { recv = λ room. failure eagain; send = λ s. count n; notice = true }

abbrev pub and_then : WorkerTurn → (TcpdnsWorker → Sending) → Sending
and_then t rest = elim t.worker as (λ _. Sending) [
  | none ↦ record { out = t.out; masks = t.masks; worker = none }
  | some w ↦ record {
    out = t.out ++ (rest w).out;
    masks = t.masks ++ (rest w).masks;
    worker = (rest w).worker;
  }
]

abbrev pub put_out : List ℕ → TcpdnsWorker → Sending
put_out [] w = record { out = []; masks = []; worker = some w }
put_out (n ∷ ns) w = and_then (tcpdns_worker_handle_event (sends_calls n) epollout w) (put_out ns)

-- What EPOLLIN does while the connection gives these pieces; once done, it is closed.
abbrev pub gives_calls : List ℕ → WorkerCalls
gives_calls s = record { recv = λ room. bytes s; send = λ t. errno eagain; notice = true }

abbrev pub or_gone :
    Option TcpdnsWorker → (TcpdnsWorker → Option TcpdnsWorker) → Option TcpdnsWorker
or_gone none rest = none
or_gone (some w) rest = rest w

abbrev pub pieces_in : List (List ℕ) → TcpdnsWorker → Option TcpdnsWorker
pieces_in [] w = some w
pieces_in (s ∷ ss) w =
    let after =
      or_gone (tcpdns_worker_handle_event (gives_calls s) epollin w).worker (pieces_in ss) in
    if w.done then some w else after

abbrev pub busy_with : List ℕ → TcpdnsWorker
busy_with s = record { proxy = true; buffer = s; done = false }

abbrev pub done_with : List ℕ → TcpdnsWorker
done_with s = record { proxy = false; buffer = s; done = true }

put_one :
    (n : ℕ) (s : List ℕ)
    → 0 < n
    → tcpdns_worker_handle_event (sends_calls n) epollout (busy_with s)
      ≡ worker_sent n (busy_with s)
unfolding tcpdns_worker_handle_event worker_output
put_one n s h =
    let positive : (n == 0) ≡ false = ==_false n 0 (λ z. omega (arith, z, h)) in rw positive refl

take_piece :
    (c s : List ℕ)
    → 0 < length c
    → tcpdns_worker_handle_event (gives_calls c) epollin (busy_with s)
      ≡ worker_received true (busy_with (s ++ c))
unfolding tcpdns_worker_handle_event worker_input
take_piece (b ∷ c) s h = refl
take_piece [] s h = absurd (omega (arith, h))

u16-append : (s t : List ℕ) → 2 ≤ length s → u16_at_front (s ++ t) ≡ u16_at_front s
u16-append (b ∷ c ∷ s) t h = refl
u16-append (b ∷ []) t h = absurd (omega (arith, h))
u16-append [] t h = absurd (omega (arith, h))

-- A message with its length is complete, and no part of it before the end is.
module _ (answer : List ℕ) (some_byte : 0 < length answer)
    (fits : length answer + 2 ≤ buffer_size) where
  whole-is_complete : is_complete (with_length answer) ≡ true
  whole-is_complete =
      let u = u16-with_length answer (omega (arith, fits)) in
      let size = length (with_length answer) in
      let long : ltb 2 size ≡ true = lt→ltb 2 size (omega (arith, some_byte)) in
      let all : ltb size (u16_at_front (with_length answer) + 2) ≡ false =
        ltb-false size _ (omega (arith, u)) in
      rw (long, all) refl

  part-is_complete :
      (s t : List ℕ) → s ++ t ≡ with_length answer → 0 < length t → is_complete s ≡ false
  part-is_complete s t e h = elim (Bool-cases (ltb 2 (length s))) [
    | inl long ↦
        (let u = sym (u16-append s t (omega (arith, ltb→lt _ _ long))) ∙ ap u16_at_front e in
          let size = ap length e in
          let less : ltb (length s) (u16_at_front s + 2) ≡ true =
            lt→ltb (length s) (u16_at_front s + 2) (
              omega (
                arith,
                u,
                size,
                h,
                length-append s t,
                u16-with_length answer (omega (arith, fits)),
              )) in
          rw (long, less) refl)
    | inr short ↦ rw short refl
  ]

  taken_in :
      (c : List ℕ) (cs : List (List ℕ)) (s : List ℕ)
      → All (λ c. 0 < length c) (c ∷ cs)
      → s ++ concat (c ∷ cs) ≡ with_length answer
      → pieces_in (c ∷ cs) (busy_with s) ≡ some (done_with (with_length answer))
  unfolding worker_received
  taken_in c [] s (h, hs) e =
      let all : s ++ c ≡ with_length answer = sym (ap (λ t. s ++ t) (append-nil c)) ∙ e in
      rw (take_piece c s h, all, whole-is_complete) refl
  taken_in c (d ∷ cs) s (h, hs) e =
      let split : (s ++ c) ++ concat (d ∷ cs) ≡ with_length answer =
        append_assoc s c (concat (d ∷ cs)) ∙ e in
      let more : 0 < length (concat (d ∷ cs)) = omega (arith, hs.0, length-append d (concat cs)) in
      let part = part-is_complete (s ++ c) (concat (d ∷ cs)) split more in
      rw (take_piece c s h, part) (taken_in d cs (s ++ c) hs split)

drop_all : (n : ℕ) (s : List ℕ) → length s ≤ n → drop n s ≡ []
drop_all zero [] h = refl
drop_all zero (b ∷ s) h = absurd (omega arith)
drop_all (suc n) [] h = refl
drop_all (suc n) (b ∷ s) h = drop_all n s (omega arith)

-- Whatever pieces the connection takes, the bytes go out once and in order, and EPOLLIN is asked for,
-- alone, when the last has gone.
put_out_lem :
    (n : ℕ) (ns : List ℕ) (s : List ℕ)
    → All (λ n. 0 < n) (n ∷ ns)
    → sum (n ∷ ns) ≡ length s
    → put_out (n ∷ ns) (busy_with s)
      ≡ record { out = s; masks = (epollin, evupd) ∷ []; worker = some (busy_with []) }
put_out_lem n [] s (h, _) e =
    let all = drop_all n s (omega (arith, e)) in
    let taken = take_all n s (omega (arith, e)) in rw (put_one n s h, all, taken, append-nil s) refl
put_out_lem n (m ∷ ns) s (h, hs) e =
    let left : length (drop n s) ≡ length s - n = length-drop n s in
    let some_left : (length (drop n s) == 0) ≡ false =
      ==_false _ 0 (λ z. omega (arith, z, left, e, hs.0)) in
    let rest = put_out_lem m ns (drop n s) hs (omega (arith, left, e)) in
    rw (put_one n s h, rest, some_left, take-append-drop n s) refl

-- A query and an answer that fit, with two bytes of length, in the 4096 bytes of a buffer; the
-- connection is made, and each call takes or gives a byte at least. The query goes into a worker of
-- its own. However the connection cuts them: the query goes out once, in order, behind its length, and
-- then EPOLLIN alone is asked for; when the last piece of an answer of a byte or more has come, and not
-- before, the worker is done, and tcpdns_recv(), once the eventfd counts it, gives exactly the answer,
-- cut to the room there is, and the other workers stay.
pub tcpdns_exchange :
    (conf : NspConf) (made : ProxyType → List ℕ → ℕ → Bool) (query answer : List ℕ)
    (others : List TcpdnsWorker) (n : ℕ) (ns : List ℕ) (piece : List ℕ) (pieces : List (List ℕ))
    (size : ℕ)
    → length query + 2 ≤ buffer_size
    → made conf.proxytype conf.dnssrv conf.dnsport ≡ true
    → All (λ n. 0 < n) (n ∷ ns)
    → sum (n ∷ ns) ≡ length query + 2
    → 0 < length answer
    → length answer + 2 ≤ buffer_size
    → All (λ s. 0 < length s) (piece ∷ pieces)
    → concat (piece ∷ pieces) ≡ with_length answer
    → let asked = busy_with (with_length query) in
      let over = done_with (with_length answer) in
      (tcpdns_send conf made query others
        ≡ record { workers = asked ∷ others; ret = count (length query) })
      × (put_out (n ∷ ns) asked ≡ record {
        out = with_length query;
        masks = (epollin, evupd) ∷ [];
        worker = some (busy_with []);
      })
      × (pieces_in (piece ∷ pieces) (busy_with []) ≡ some over)
      × (tcpdns_recv (count 1) size (over ∷ others)
          ≡ record { workers = others; ret = bytes (take size answer); assert_ok = true })
unfolding tcpdns_send tcpdns_recv first_done without_first_done
tcpdns_exchange conf made query answer others n ns piece pieces size fits up positive total
      some_byte room pieces_some whole =
    let small : ltb buffer_size (length query + 2) ≡ false = ltb-false buffer_size _ (fits) in
    let ok : leb 2 (length (with_length answer)) ≡ true = le→leb 2 _ (omega arith) in
    (
      rw (small, up) refl,
      put_out_lem n ns (with_length query) positive (omega (arith, total)),
      taken_in answer some_byte room piece pieces [] pieces_some whole,
      rw (ok, cut_at (with_length answer) size) refl,
    )
