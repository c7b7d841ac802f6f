-- ===== src/Tcpdns/Tests.antt =====
-- The laws of DNS over TCP at a query and an answer of one byte.
use nsproxy.Common.{
  ℕ, ◌≡◌, refl, ap, Bool, true, some, List, [], ◌∷◌, arith, length, take, drop, length-take,
}
use nsproxy.Rules.Conf.{ProxyType}
use nsproxy.Rules.Tests.{empty_conf}
use nsproxy.Skutils.{count, Recv, bytes, failure, epollin, epollout, evupd}
use nsproxy.Tcpdns.{
  TcpdnsWorker, WorkerCalls, is_complete, tcpdns_worker_handle_event, worker_output, worker_input,
  worker_received, tcpdns_send, first_done, without_first_done, tcpdns_recv,
}
use nsproxy.Tcpdns.Worker.{RecvLaws}
use nsproxy.Tcpdns.Exchange.{
  busy_with, done_with, sends_calls, gives_calls, put_out, pieces_in, tcpdns_exchange,
}
use nsproxy.Tcpdns.Invariant.{
  Master, Reach, start, next, asked, event, MasterValid, Reach-MasterValid, tcpdns_recv-answers,
}

abbrev connects : ProxyType → List ℕ → ℕ → Bool
connects p srv port = true

-- The query goes out in two pieces, the answer comes in two.
tcpdns_exchange_example :
    (tcpdns_send empty_conf connects (7 ∷ []) []
      ≡ record { workers = busy_with (0 ∷ 1 ∷ 7 ∷ []) ∷ []; ret = count 1 })
    × (put_out (1 ∷ 2 ∷ []) (busy_with (0 ∷ 1 ∷ 7 ∷ [])) ≡ record {
      out = 0 ∷ 1 ∷ 7 ∷ [];
      masks = (epollin, evupd) ∷ [];
      worker = some (busy_with []);
    })
    × (pieces_in ((0 ∷ []) ∷ (1 ∷ 9 ∷ []) ∷ []) (busy_with []) ≡ some (done_with (0 ∷ 1 ∷ 9 ∷ [])))
    × (tcpdns_recv (count 1) 65536 (done_with (0 ∷ 1 ∷ 9 ∷ []) ∷ [])
        ≡ record { workers = []; ret = bytes (9 ∷ []); assert_ok = true })
tcpdns_exchange_example =
    tcpdns_exchange empty_conf connects (7 ∷ []) (9 ∷ []) [] 1 (2 ∷ []) (0 ∷ []) ((1 ∷ 9 ∷ []) ∷ [])
      65536 (omega arith) refl (omega arith) refl (omega arith) (omega arith) (omega arith) refl

abbrev begun : Master
begun = record { workers = busy_with (0 ∷ 1 ∷ 7 ∷ []) ∷ []; evfd = 0 }

abbrev gone_out : Master
gone_out = record { workers = busy_with [] ∷ []; evfd = 0 }

abbrev over : Master
over = record { workers = done_with (0 ∷ 1 ∷ 9 ∷ []) ∷ []; evfd = 1 }

begun_reached : Reach begun
unfolding tcpdns_send
begun_reached = next start (asked _ empty_conf connects (7 ∷ []))

sends-RecvLaws : (n : ℕ) → RecvLaws (sends_calls n).recv
sends-RecvLaws n = record { fits = λ room s e. cc (e) }

abbrev reply : List ℕ
reply = 0 ∷ 1 ∷ 9 ∷ []

-- The connection gives what there is room for.
abbrev gives : WorkerCalls
gives = record (gives_calls []) { recv = λ room. bytes (take room reply) }

abbrev content : Recv → List ℕ
content (bytes s) = s
content (failure e) = []

gives-RecvLaws : RecvLaws gives.recv
gives-RecvLaws = record {
  fits = λ room s e. omega (arith, ap length (ap content e), length-take room reply);
}

gone_out_reached : Reach gone_out
unfolding tcpdns_worker_handle_event worker_output
gone_out_reached = next begun_reached (
    event begun [] [] (busy_with (0 ∷ 1 ∷ 7 ∷ [])) (sends_calls 3) epollout refl refl
      (sends-RecvLaws 3))

over_reached : Reach over
unfolding tcpdns_worker_handle_event worker_input worker_received
over_reached =
    next gone_out_reached
      (event gone_out [] [] (busy_with []) gives epollin refl refl gives-RecvLaws)

Reach-MasterValid_example : MasterValid over
Reach-MasterValid_example = Reach-MasterValid over_reached

tcpdns_recv-answers_example :
    ((tcpdns_recv (count 1) 65536 over.workers).assert_ok ≡ true)
    × ((tcpdns_recv (count 1) 65536 over.workers).workers ≡ without_first_done over.workers)
    × ((w : TcpdnsWorker) × (first_done over.workers ≡ some w)
        × (is_complete w.buffer ≡ true)
        × ((tcpdns_recv (count 1) 65536 over.workers).ret ≡ bytes (take 65536 (drop 2 w.buffer))))
tcpdns_recv-answers_example = tcpdns_recv-answers 0 65536 over_reached refl
