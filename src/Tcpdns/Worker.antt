-- ===== src/Tcpdns/Worker.antt =====
-- One worker of src/tcpdns.c: what its buffer holds after each event of its connection.
use nsproxy.Common.{
  ℕ, ◌+◌, ◌-◌, ◌≤◌, ◌<◌, ◌≡◌, refl, Bool, true, false, not, Option, none, some, List, [], ◌∷◌, ◌++◌,
  arith, ◌==◌, if◌then◌else◌, if_cases, length, length-append, length-drop,
}
use nsproxy.Skutils.{Ret, count, errno, Recv, bytes, failure, eagain, epollin, epollout, epollerr}
use nsproxy.Tcpdns.{
  TcpdnsWorker, buffer_size, WorkerTurn, WorkerCalls, stays, destroyed, u16_at_front, is_complete,
  worker_received, worker_input, worker_sent, worker_output, has, tcpdns_worker_handle_event,
  with_length,
}

-- A receive gives no more than there is room for.
pub record RecvLaws (recv : ℕ → Recv) : Type 0 where
  pub fits : (room : ℕ) (s : List ℕ) → recv room ≡ bytes s → length s ≤ room

-- The buffer has its bounds, and a worker is done exactly when its connection is gone and the message in
-- the buffer is complete.
pub record WorkerValid (w : TcpdnsWorker) : Type 0 where
  pub bounded : length w.buffer ≤ buffer_size
  pub open_until : w.proxy ≡ not w.done
  pub complete : w.done ≡ true → is_complete w.buffer ≡ true

-- What a turn leaves: nothing, or a valid worker that is done exactly if the eventfd was written.
abbrev pub OutcomeValid : Bool → Option TcpdnsWorker → Type 0
OutcomeValid noticed none = noticed ≡ false
OutcomeValid noticed (some w) = WorkerValid w × (w.done ≡ noticed)

abbrev pub TurnValid : WorkerTurn → Type 0
TurnValid t = OutcomeValid t.noticed t.worker

module _ (w : TcpdnsWorker) (v : WorkerValid w) (busy : w.done ≡ false) where
  stays_valid : TurnValid (stays w)
  stays_valid = (v, busy)

  received_valid :
      (notice : Bool) (s : List ℕ)
      → length s ≤ buffer_size - length w.buffer
      → TurnValid (worker_received notice (record w { buffer = w.buffer ++ s }))
  unfolding worker_received
  received_valid notice s h =
      if_cases TurnValid (is_complete (w.buffer ++ s)) _ _
        (λ whole.
          if_cases TurnValid notice _ destroyed
            (λ _. (record { bounded = fit; open_until = refl; complete = λ _. whole }, refl))
            (λ _. refl))
        (λ _. (
          record {
            bounded = fit;
            open_until = v.open_until;
            complete = λ d. ground (arith, d, busy);
          },
          busy,
        ))
    where
      fit : length (w.buffer ++ s) ≤ buffer_size
      fit = omega (arith, v.bounded, h, length-append w.buffer s)

  input_valid : (calls : WorkerCalls) → RecvLaws calls.recv → TurnValid (worker_input calls w)
  unfolding worker_input
  input_valid calls laws = by_answer (calls.recv (buffer_size - length w.buffer)) refl
    where
      by_answer :
          (r : Recv)
          → calls.recv (buffer_size - length w.buffer) ≡ r
          → TurnValid (elim r [
            | failure e ↦ if e == eagain then stays w else destroyed
            | bytes [] ↦ destroyed
            | bytes (b ∷ s) ↦
                worker_received calls.notice (record w { buffer = w.buffer ++ (b ∷ s) })
          ])
      by_answer (failure e) q =
          if_cases TurnValid (e == eagain) (stays w) destroyed (λ _. stays_valid) (λ _. refl)
      by_answer (bytes []) q = refl
      by_answer (bytes (b ∷ s)) q = received_valid calls.notice (b ∷ s) (laws.fits _ (b ∷ s) q)

  output_valid : (calls : WorkerCalls) → TurnValid (worker_output calls w)
  unfolding worker_output
  output_valid calls = by_answer (calls.send w.buffer)
    where
      by_answer :
          (r : Ret)
          → TurnValid (elim r [
            | errno e ↦ if e == eagain then stays w else destroyed
            | count n ↦ if n == 0 then destroyed else worker_sent n w
          ])
      by_answer (errno e) =
          if_cases TurnValid (e == eagain) (stays w) destroyed (λ _. stays_valid) (λ _. refl)
      by_answer (count n) =
          if_cases TurnValid (n == 0) destroyed (worker_sent n w) (λ _. refl)
            (λ _. (
              record {
                bounded = omega (arith, v.bounded, length-drop n w.buffer);
                open_until = v.open_until;
                complete = λ d. ground (arith, d, busy);
              },
              busy,
            ))

  pub event_valid :
      (calls : WorkerCalls) (event : ℕ)
      → RecvLaws calls.recv
      → TurnValid (tcpdns_worker_handle_event calls event w)
  unfolding tcpdns_worker_handle_event
  event_valid calls event laws =
      if_cases TurnValid (has event epollerr) destroyed _ (λ _. refl)
        (λ _.
          if_cases TurnValid (has event epollin) (worker_input calls w) _
            (λ _. input_valid calls laws)
            (λ _.
              if_cases TurnValid (has event epollout) (worker_output calls w) (stays w)
                (λ _. output_valid calls) (λ _. stays_valid)))

-- A query within the bound makes a valid worker, whose first bytes are its length.
pub with_length-WorkerValid :
    (s : List ℕ)
    → length s + 2 ≤ buffer_size
    → WorkerValid (record { proxy = true; buffer = with_length s; done = false })
with_length-WorkerValid s h = record {
  bounded = omega arith;
  open_until = refl;
  complete = λ d. cc (d);
}

-- The length that goes before a message, read back.
pub u16-with_length : (s : List ℕ) → length s < 65536 → u16_at_front (with_length s) ≡ length s
u16-with_length s h = omega arith
