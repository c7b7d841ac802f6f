-- ===== src/Http/Handshake/Phases.antt =====
-- The order of the phases of the handshake of src/http.c, and what the user is told.
use nsproxy.Common.{
  ℕ, ◌≡◌, refl, ◌≢◌, ◌⊎◌, inl, inr, Option, none, some, List, ◌++◌, arith, ◌==◌, if_cases, length,
}
use nsproxy.Rules.Conf.{NspConf}
use nsproxy.Skutils.{Ret, count, errno, Recv, bytes, failure, Ctl}
use nsproxy.Http.Handshake.{
  HttpPhase, failed, send_request, recv_reply, forwarding, ProxyHttp, HttpTurn, fail,
  http_handshake_output, http_reply, http_taken, reply_discard, http_handshake_input, HttpCalls,
  http_dispatch, http_epcb_events, crlf2_end,
}
use nsproxy.Socks.Codec.{c_string}

-- The phases that one event may lead to. The last phase and the failed one are final.
abbrev pub Follows : HttpPhase → HttpPhase → Type 0
Follows failed q = q ≡ failed
Follows send_request q = (q ≡ send_request) ⊎ (q ≡ recv_reply) ⊎ (q ≡ failed)
Follows recv_reply q = (q ≡ recv_reply) ⊎ (q ≡ forwarding) ⊎ (q ≡ failed)
Follows forwarding q = q ≡ forwarding

abbrev GoodTurn : HttpPhase → HttpTurn → Type 0
GoodTurn p t = Follows p t.self.phase × (t.self.phase ≡ failed → t.user ≡ some 13)

output-Good :
    (conf : NspConf) (ctl : Ctl → ℕ) (sent : Ret) (self : ProxyHttp)
    → self.phase ≡ send_request
    → GoodTurn send_request (http_handshake_output conf ctl sent self)
unfolding http_handshake_output
output-Good conf ctl (errno e) self h = ground arith
output-Good conf ctl (count n) self h = ground arith

reply-Good :
    (ctl : Ctl → ℕ) (s : List ℕ) (end : Option ℕ) (self : ProxyHttp)
    → self.phase ≡ recv_reply
    → GoodTurn recv_reply (http_reply ctl s end self)
unfolding http_reply
reply-Good ctl s none self h = ground arith
reply-Good ctl s (some end) self h = ground arith

taken-Good :
    (ctl : Ctl → ℕ) (peeked : List ℕ) (taken : Recv) (self : ProxyHttp)
    → self.phase ≡ recv_reply
    → GoodTurn recv_reply (http_taken ctl peeked taken self)
unfolding http_taken
taken-Good ctl peeked (failure e) self h = (inr (inr refl), λ _. refl)
taken-Good ctl peeked (bytes taken) self h =
    let s = c_string (self.hsbuff ++ peeked) in
    let next : ProxyHttp = record self { hsbuff = self.hsbuff ++ taken } in
    if_cases (GoodTurn recv_reply)
      (length taken == reply_discard (length self.hsbuff) (length peeked) (crlf2_end s))
      (http_reply ctl s (crlf2_end s) next) (fail self) (λ _. reply-Good ctl s (crlf2_end s) next h)
      (λ _. (inr (inr refl), λ _. refl))

input-Good :
    (ctl : Ctl → ℕ) (first taken : Recv) (self : ProxyHttp)
    → self.phase ≡ recv_reply
    → GoodTurn recv_reply (http_handshake_input ctl first taken self)
unfolding http_handshake_input
input-Good ctl (failure e) taken self h = ground arith
input-Good ctl (bytes peeked) taken self h =
    if_cases (GoodTurn recv_reply) (length peeked == 0) (fail self)
      (http_taken ctl peeked taken self) (λ _. (inr (inr refl), λ _. refl))
      (λ _. taken-Good ctl peeked taken self h)

dispatch-Good :
    (conf : NspConf) (calls : HttpCalls) (events : ℕ) (p : HttpPhase) (self : ProxyHttp)
    → self.phase ≡ p
    → GoodTurn p (http_dispatch conf calls events p self)
dispatch-Good conf calls events failed self h = (h, λ _. refl)
dispatch-Good conf calls events forwarding self h = (h, λ f. ground arith)
dispatch-Good conf calls events send_request self h = output-Good conf calls.ctl calls.sent self h
dispatch-Good conf calls events recv_reply self h =
    input-Good calls.ctl calls.first calls.taken self h

told : (p : HttpPhase) (u : Option ℕ) → (p ≡ failed → u ≡ some 13) → (p ≢ failed) ⊎ (u ≡ some 13)
told failed u h = inr (h refl)
told send_request u h = inl (λ e. ground arith)
told recv_reply u h = inl (λ e. ground arith)
told forwarding u h = inl (λ e. ground arith)

-- Every event of the epoll callback leads from the present phase to one that may follow it, and a
-- turn that leaves the handshake failed tells the user all events.
pub http_events-Follows :
    (conf : NspConf) (calls : HttpCalls) (events : ℕ) (self : ProxyHttp)
    → Follows self.phase (http_epcb_events conf calls events self).self.phase
      × (((http_epcb_events conf calls events self).self.phase ≢ failed)
          ⊎ ((http_epcb_events conf calls events self).user ≡ some 13))
unfolding http_epcb_events
http_events-Follows conf calls events self =
    let (f, u) = dispatch-Good conf calls events self.phase self refl in (f, told _ _ u)
