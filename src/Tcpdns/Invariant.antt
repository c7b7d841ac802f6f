-- ===== src/Tcpdns/Invariant.antt =====
-- The master of src/tcpdns.c over any sequence of queries, events and reads.
use nsproxy.Common.{
  ℕ, suc, ◌+◌, ◌<◌, ◌≡◌, refl, sym, ap, ◌∙◌, inl, inr, Bool, true, false, not, Option, none, some,
  List, [], ◌∷◌, ◌++◌, arith, ltb, if◌then◌else◌, ltb→lt, Bool-cases, &&_parts, if_cases, le_of_ltb,
  length, take, drop, All, All-append,
}
use nsproxy.Rules.Conf.{NspConf, ProxyType}
use nsproxy.Skutils.{count, bytes}
use nsproxy.Tcpdns.{
  TcpdnsWorker, buffer_size, WorkerTurn, WorkerCalls, is_complete, tcpdns_worker_handle_event,
  tcpdns_send, SendTurn, first_done, without_first_done, tcpdns_recv,
}
use nsproxy.Tcpdns.Done.{count_done, count_done-append, first_done_lem, cut_at, le→leb}
use nsproxy.Tcpdns.Worker.{
  RecvLaws, WorkerValid, OutcomeValid, TurnValid, event_valid, with_length-WorkerValid,
}

-- The workers, and the value of the eventfd, which the kernel keeps.
pub record Master : Type 0 where
  pub workers : List TcpdnsWorker
  pub evfd : ℕ

abbrev pub survivor : Option TcpdnsWorker → List TcpdnsWorker
survivor none = []
survivor (some w) = w ∷ []

-- The list and the eventfd after a turn of the worker at one place.
abbrev pub after_turn : List TcpdnsWorker → List TcpdnsWorker → WorkerTurn → ℕ → Master
after_turn newer older t evfd = record {
  workers = newer ++ (survivor t.worker ++ older);
  evfd = if t.noticed then suc evfd else evfd;
}

-- A worker has events while its connection is there, and is handled at its place in the list; its write
-- adds one to the eventfd. A read of the eventfd, which is a semaphore, gives 1 and takes one away.
pub data Step : Master → Master → Type 0 where
  asked :
      (m : Master) (conf : NspConf) (made : ProxyType → List ℕ → ℕ → Bool) (query : List ℕ)
      → Step m (record m { workers = (tcpdns_send conf made query m.workers).workers })
  event :
      (m : Master) (newer older : List TcpdnsWorker) (w : TcpdnsWorker) (calls : WorkerCalls)
      (mask : ℕ)
      → m.workers ≡ newer ++ (w ∷ older)
      → w.proxy ≡ true
      → RecvLaws calls.recv
      → Step m (after_turn newer older (tcpdns_worker_handle_event calls mask w) m.evfd)
  answered :
      (m : Master) (n size : ℕ)
      → m.evfd ≡ suc n
      → Step m (record { workers = (tcpdns_recv (count 1) size m.workers).workers; evfd = n })

pub data Reach : Master → Type 0 where
  start : Reach (record { workers = []; evfd = 0 })
  next : {m n : Master} → Reach m → Step m n → Reach n

-- Every worker is valid, and the eventfd counts those that are done.
pub record MasterValid (m : Master) : Type 0 where
  pub each : All WorkerValid m.workers
  pub counted : count_done m.workers ≡ m.evfd

middle-WorkerValid :
    (newer older : List TcpdnsWorker) (w : TcpdnsWorker) (o : Option TcpdnsWorker)
    → All WorkerValid (newer ++ (w ∷ older))
    → All WorkerValid (survivor o)
    → All WorkerValid (newer ++ (survivor o ++ older))
middle-WorkerValid [] older w o (v, h) k = All-append WorkerValid (survivor o) older k h
middle-WorkerValid (x ∷ newer) older w o (v, h) k = (v, middle-WorkerValid newer older w o h k)

middle :
    (newer older : List TcpdnsWorker) (w : TcpdnsWorker)
    → All WorkerValid (newer ++ (w ∷ older))
    → WorkerValid w
middle [] older w (v, h) = v
middle (x ∷ newer) older w (v, h) = middle newer older w h

-- What an event does to one worker, on the list and the eventfd.
turn_valid :
    (newer older : List TcpdnsWorker) (w : TcpdnsWorker) (t : WorkerTurn) (evfd : ℕ)
    → MasterValid (record { workers = newer ++ (w ∷ older); evfd = evfd })
    → w.done ≡ false
    → TurnValid t
    → MasterValid (record {
      workers = newer ++ (survivor t.worker ++ older);
      evfd = if t.noticed then suc evfd else evfd;
    })
turn_valid newer older w t evfd v busy ok = by_worker t.worker ok
  where
    before : count_done newer + count_done older ≡ evfd
    before =
        let one : count_done (w ∷ older) ≡ count_done older = rw busy (omega arith) in
        omega (arith, v.counted, count_done-append newer (w ∷ older), one)

    by_worker :
        (o : Option TcpdnsWorker)
        → OutcomeValid t.noticed o
        → MasterValid (record {
          workers = newer ++ (survivor o ++ older);
          evfd = if t.noticed then suc evfd else evfd;
        })
    by_worker none quiet = record {
      each = middle-WorkerValid newer older w none v.each tt;
      counted = rw quiet (omega (arith, before, count_done-append newer older));
    }
    by_worker (some x) (vx, same) = record {
      each = middle-WorkerValid newer older w (some x) v.each (vx, tt);
      counted = rw (sym same) (by_done x);
    }
      where
        by_done :
            (x : TcpdnsWorker)
            → count_done (newer ++ (x ∷ older)) ≡ (if x.done then suc evfd else evfd)
        by_done x = elim (Bool-cases x.done) [
          | inl e ↦
              (let c = simp e at (count_done-append newer (x ∷ older)) in
                simp e (omega (arith, before, c)))
          | inr e ↦
              (let c = simp e at (count_done-append newer (x ∷ older)) in
                simp e (omega (arith, before, c)))
        ]

asked_valid :
    (m : Master) (conf : NspConf) (made : ProxyType → List ℕ → ℕ → Bool) (query : List ℕ)
    → MasterValid m
    → MasterValid (record m { workers = (tcpdns_send conf made query m.workers).workers })
unfolding tcpdns_send
asked_valid m conf made query v =
    let P : List TcpdnsWorker → Type 0 = λ ws. MasterValid (record m { workers = ws }) in
    let Q : SendTurn → Type 0 = λ t. P t.workers in
    if_cases Q (ltb buffer_size (length query + 2)) _ _ (λ _. v)
      (λ fits.
        if_cases Q (not (made conf.proxytype conf.dnssrv conf.dnsport)) _ _ (λ _. v)
          (λ _. record {
            each = (with_length-WorkerValid query (le_of_ltb _ _ fits), v.each);
            counted = omega (arith, v.counted);
          }))

answered_valid :
    (m : Master) (n size : ℕ)
    → m.evfd ≡ suc n
    → MasterValid m
    → MasterValid (record { workers = (tcpdns_recv (count 1) size m.workers).workers; evfd = n })
unfolding tcpdns_recv
answered_valid m n size e v =
    let f = first_done_lem m.workers n v.each (v.counted ∙ e) in
    simp f.is_first (record { each = f.others; counted = f.fewer })

Step-MasterValid : {m n : Master} → Step m n → MasterValid m → MasterValid n
Step-MasterValid (asked m conf made query) v = asked_valid m conf made query v
Step-MasterValid (event m newer older w calls mask e here laws) v =
    let v' : MasterValid (record { workers = newer ++ (w ∷ older); evfd = m.evfd }) = record {
      each = rw (sym e) v.each;
      counted = rw (sym e) v.counted;
    } in
    let vw = middle newer older w v'.each in
    let busy : w.done ≡ false = ground (arith, vw.open_until, here) in
    turn_valid newer older w (tcpdns_worker_handle_event calls mask w) m.evfd v' busy
      (event_valid w vw busy calls mask laws)
Step-MasterValid (answered m n size e) v = answered_valid m n size e v

-- After any sequence of queries, events and reads: every worker's buffer is within its 4096 bytes, a
-- worker is done exactly when its connection is closed, and then its buffer holds a whole message;
-- and the eventfd counts exactly the workers that are done.
pub Reach-MasterValid : {m : Master} → Reach m → MasterValid m
Reach-MasterValid start = record { each = tt; counted = refl }
Reach-MasterValid (next r s) = Step-MasterValid s (Reach-MasterValid r)

-- A read that the eventfd announces gives an answer: its assertion holds, the answer is the message
-- behind the length of the first worker that is done, cut to the room there is, and that worker is
-- taken off the list.
pub tcpdns_recv-answers :
    {m : Master} (n size : ℕ)
    → Reach m
    → m.evfd ≡ suc n
    → let t = tcpdns_recv (count 1) size m.workers in
      (t.assert_ok ≡ true)
      × (t.workers ≡ without_first_done m.workers)
      × ((w : TcpdnsWorker) × (first_done m.workers ≡ some w)
          × (is_complete w.buffer ≡ true)
          × (t.ret ≡ bytes (take size (drop 2 w.buffer))))
unfolding tcpdns_recv
tcpdns_recv-answers {m} n size r e =
    let v = Reach-MasterValid r in
    let f = first_done_lem m.workers n v.each (v.counted ∙ e) in
    let whole = f.valid.complete f.is_done in
    let least : 2 < length f.worker.buffer = ltb→lt _ _ (&&_parts _ _ whole).0 in
    simp f.is_first (
      le→leb 2 (length f.worker.buffer) (omega (arith, least)),
      refl,
      (f.worker, refl, whole, ap bytes (cut_at f.worker.buffer size)),
    )
