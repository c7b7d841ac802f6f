-- ===== src/Socks/Handshake/Phases.antt =====
-- The order of the phases of the SOCKS5 handshake in src/socks.c, and what the user is told.
use nsproxy.Common.{
  ℕ, ◌≡◌, refl, sym, ◌∙◌, ◌≢◌, ◌⊎◌, inl, inr, Option, none, some, List, [], ◌∷◌, ◌++◌, arith, ◌==◌,
  if_cases, length,
}
use mathlib.Core.Path.{subst}
use nsproxy.Rules.Conf.{NspConf}
use nsproxy.Skutils.{eagain, Ret, count, errno, Recv, bytes, failure, Ctl}
use nsproxy.Socks.Codec.{Inet, InetLaws}
use nsproxy.Socks.Handshake.Output.{Fits, assemble-Fits}
use nsproxy.Socks.Handshake.{
  Phase, failed, send_method, recv_method, send_auth, recv_auth, send_request, recv_reply,
  forwarding, ProxySocks, Turn, more_data, all_events, after_send, socks_handshake_output, Verdict,
  wait, refuse, pass, method_verdict, auth_verdict, Reply, finish_reply, accept_reply,
  reply_verdict, received, after_recv, end_phase, conclude, socks_handshake_input, Calls, dispatch,
  socks_epcb_events, discard_size, parse_reply,
}

-- The phases that one event may lead to. The last phase and the failed one are final.
abbrev pub Follows : Phase → Phase → Type 0
Follows failed q = q ≡ failed
Follows send_method q = (q ≡ send_method) ⊎ (q ≡ recv_method) ⊎ (q ≡ failed)
Follows recv_method q = (q ≡ recv_method) ⊎ (q ≡ send_auth) ⊎ (q ≡ send_request) ⊎ (q ≡ failed)
Follows send_auth q = (q ≡ send_auth) ⊎ (q ≡ recv_auth) ⊎ (q ≡ failed)
Follows recv_auth q = (q ≡ recv_auth) ⊎ (q ≡ send_request) ⊎ (q ≡ failed)
Follows send_request q = (q ≡ send_request) ⊎ (q ≡ recv_reply) ⊎ (q ≡ failed)
Follows recv_reply q = (q ≡ recv_reply) ⊎ (q ≡ forwarding) ⊎ (q ≡ failed)
Follows forwarding q = q ≡ forwarding

-- A turn from phase `p`: where it may lead, and that the user hears of a failure.
abbrev GoodTurn : Phase → Turn → Type 0
GoodTurn p t = Follows p t.self.phase × (t.self.phase ≡ failed → t.user ≡ some all_events)

abbrev Good : Phase → Option Turn → Type 0
Good p none = ⊥
Good p (some t) = GoodTurn p t

after_send-Good :
    (ctl : Ctl → ℕ) (sent : Ret) (p : Phase) (self : ProxySocks)
    → self.phase ≡ p
    → (p ≡ send_method) ⊎ (p ≡ send_auth) ⊎ (p ≡ send_request)
    → GoodTurn p (after_send ctl sent self)
unfolding after_send
after_send-Good ctl (errno e) send_method self h k = ground arith
after_send-Good ctl (errno e) send_auth self h k = ground arith
after_send-Good ctl (errno e) send_request self h k = ground arith
after_send-Good ctl (count n) send_method self h k = ground arith
after_send-Good ctl (count n) send_auth self h k = ground arith
after_send-Good ctl (count n) send_request self h k = ground arith
after_send-Good ctl sent p self h k = ground arith

-- A verdict of an input phase.
abbrev GoodVerdict : Phase → Verdict → Type 0
GoodVerdict p (wait s) = s.phase ≡ p
GoodVerdict p (refuse s) = Unit {0}
GoodVerdict p (pass s) =
    Follows p s.phase × ((s.phase ≡ send_auth) ⊎ (s.phase ≡ send_request) ⊎ (s.phase ≡ forwarding))

method_verdict-Good :
    (self : ProxySocks) (s : List ℕ)
    → self.phase ≡ recv_method
    → GoodVerdict recv_method (method_verdict self s)
unfolding method_verdict
method_verdict-Good self [] h = h
method_verdict-Good self (v ∷ []) h = h
method_verdict-Good self (v ∷ m ∷ more) h = ground arith

auth_verdict-Good :
    (self : ProxySocks) (s : List ℕ)
    → self.phase ≡ recv_auth
    → GoodVerdict recv_auth (auth_verdict self s)
unfolding auth_verdict
auth_verdict-Good self [] h = h
auth_verdict-Good self (v ∷ []) h = h
auth_verdict-Good self (v ∷ status ∷ []) h = ground arith
auth_verdict-Good self (v ∷ status ∷ c ∷ more) h = tt

finish_reply-Good :
    (self : ProxySocks) (r : Option Reply)
    → self.phase ≡ recv_reply
    → GoodVerdict recv_reply (finish_reply self r)
unfolding finish_reply accept_reply
finish_reply-Good self none h = ground arith
finish_reply-Good self (some r) h = ground arith

reply_verdict-Good :
    (inet : Inet) (self : ProxySocks) (s : List ℕ) (taken : Recv)
    → self.phase ≡ recv_reply
    → GoodVerdict recv_reply (reply_verdict inet self s taken)
unfolding reply_verdict
reply_verdict-Good inet self s (failure e) h = tt
reply_verdict-Good inet self s (bytes b) h =
    let r = parse_reply inet (self.hsbuff ++ s) in
    let next : ProxySocks = record self { hsbuff = self.hsbuff ++ b } in
    if_cases (GoodVerdict recv_reply) (length b == discard_size self s r) (finish_reply next r)
      (refuse self) (λ _. finish_reply-Good next r h) (λ _. tt)

abbrev IsInput : Phase → Type 0
IsInput p = (p ≡ recv_method) ⊎ (p ≡ recv_auth) ⊎ (p ≡ recv_reply)

received-Good :
    (inet : Inet) (p : Phase) (self : ProxySocks) (s : List ℕ) (taken : Recv)
    → self.phase ≡ p
    → IsInput p
    → GoodVerdict p (received inet p self s taken)
unfolding received
received-Good inet recv_method self s taken h k =
    method_verdict-Good (more_data self s) (self.hsbuff ++ s) h
received-Good inet recv_auth self s taken h k =
    auth_verdict-Good (more_data self s) (self.hsbuff ++ s) h
received-Good inet recv_reply self s taken h k = reply_verdict-Good inet self s taken h
received-Good inet failed self s taken h k = ground arith
received-Good inet send_method self s taken h k = ground arith
received-Good inet send_auth self s taken h k = ground arith
received-Good inet send_request self s taken h k = ground arith
received-Good inet forwarding self s taken h k = ground arith

after_recv-Good :
    (inet : Inet) (first taken : Recv) (p : Phase) (self : ProxySocks)
    → self.phase ≡ p
    → IsInput p
    → GoodVerdict p (after_recv inet self first taken)
unfolding after_recv
after_recv-Good inet (failure e) taken p self h k =
    if_cases (GoodVerdict p) (e == eagain) (wait self) (refuse self) (λ _. h) (λ _. tt)
after_recv-Good inet (bytes s) taken p self h k =
    if_cases (GoodVerdict p) (length s == 0) (refuse self) (received inet self.phase self s taken)
      (λ _. tt)
      (λ _.
        subst (λ q. GoodVerdict p (received inet q self s taken)) (sym h)
          (received-Good inet p self s taken h k))

end_phase-Good :
    (ctl : Ctl → ℕ) (p q : Phase) (s : ProxySocks)
    → s.phase ≡ q
    → (q ≡ send_auth) ⊎ (q ≡ send_request) ⊎ (q ≡ forwarding)
    → Follows p q
    → Good p (end_phase ctl q s)
unfolding end_phase
end_phase-Good ctl p send_auth s e k f = (rw e f, λ h. ground arith)
end_phase-Good ctl p send_request s e k f = (rw e f, λ h. ground arith)
end_phase-Good ctl p forwarding s e k f = (rw e f, λ h. ground arith)
end_phase-Good ctl p failed s e k f = ground arith
end_phase-Good ctl p send_method s e k f = ground arith
end_phase-Good ctl p recv_method s e k f = ground arith
end_phase-Good ctl p recv_auth s e k f = ground arith
end_phase-Good ctl p recv_reply s e k f = ground arith

stays : (p : Phase) → IsInput p → Follows p p
stays failed k = ground arith
stays send_method k = ground arith
stays recv_method k = ground arith
stays send_auth k = ground arith
stays recv_auth k = ground arith
stays send_request k = ground arith
stays recv_reply k = ground arith
stays forwarding k = ground arith

fails : (p : Phase) → IsInput p → Follows p failed
fails failed k = ground arith
fails send_method k = ground arith
fails recv_method k = ground arith
fails send_auth k = ground arith
fails recv_auth k = ground arith
fails send_request k = ground arith
fails recv_reply k = ground arith
fails forwarding k = ground arith

final_not_input : (p : Phase) → IsInput p → p ≢ failed
final_not_input p (inl e) h = ground arith
final_not_input p (inr (inl e)) h = ground arith
final_not_input p (inr (inr e)) h = ground arith

conclude-Good :
    (ctl : Ctl → ℕ) (p : Phase) (v : Verdict)
    → IsInput p
    → GoodVerdict p v
    → Good p (conclude ctl v)
unfolding conclude
conclude-Good ctl p (wait s) k g = (rw g (stays p k), λ h. absurd (final_not_input p k (sym g ∙ h)))
conclude-Good ctl p (refuse s) k g = (fails p k, λ h. refl)
conclude-Good ctl p (pass s) k (f, e) =
    end_phase-Good ctl p s.phase (record s { hsbuff = [] }) refl e f

input-Good :
    (inet : Inet) (ctl : Ctl → ℕ) (first taken : Recv) (p : Phase) (self : ProxySocks)
    → self.phase ≡ p
    → IsInput p
    → Good p (socks_handshake_input inet ctl first taken self)
unfolding socks_handshake_input
input-Good inet ctl first taken p self h k =
    conclude-Good ctl p (after_recv inet self first taken) k
      (after_recv-Good inet first taken p self h k)

output-Good :
    (conf : NspConf) (inet : Inet) (ctl : Ctl → ℕ) (sent : Ret) (p : Phase) (self : ProxySocks)
    → InetLaws inet
    → Fits conf self
    → self.phase ≡ p
    → (p ≡ send_method) ⊎ (p ≡ send_auth) ⊎ (p ≡ send_request)
    → Good p (socks_handshake_output conf inet ctl sent self)
unfolding socks_handshake_output
output-Good conf inet ctl sent p self laws fits h k =
    let (s, e, size) = assemble-Fits conf inet self laws fits in
    rw (e, socks_handshake_output) (after_send-Good ctl sent p (record self { hsbuff = s }) h k)

dispatch-Good :
    (conf : NspConf) (inet : Inet) (calls : Calls) (events : ℕ) (p : Phase) (self : ProxySocks)
    → InetLaws inet
    → Fits conf self
    → self.phase ≡ p
    → Good p (dispatch conf inet calls events p self)
unfolding dispatch
dispatch-Good conf inet calls events failed self laws fits h = (h, λ _. refl)
dispatch-Good conf inet calls events forwarding self laws fits h = (h, λ f. ground arith)
dispatch-Good conf inet calls events send_method self laws fits h =
    output-Good conf inet calls.ctl calls.sent send_method self laws fits h (inl refl)
dispatch-Good conf inet calls events send_auth self laws fits h =
    output-Good conf inet calls.ctl calls.sent send_auth self laws fits h (inr (inl refl))
dispatch-Good conf inet calls events send_request self laws fits h =
    output-Good conf inet calls.ctl calls.sent send_request self laws fits h (inr (inr refl))
dispatch-Good conf inet calls events recv_method self laws fits h =
    input-Good inet calls.ctl calls.first calls.taken recv_method self h (inl refl)
dispatch-Good conf inet calls events recv_auth self laws fits h =
    input-Good inet calls.ctl calls.first calls.taken recv_auth self h (inr (inl refl))
dispatch-Good conf inet calls events recv_reply self laws fits h =
    input-Good inet calls.ctl calls.first calls.taken recv_reply self h (inr (inr refl))

told :
    (p : Phase) (u : Option ℕ)
    → (p ≡ failed → u ≡ some all_events)
    → (p ≢ failed) ⊎ (u ≡ some all_events)
told failed u h = inr (h refl)
told send_method u h = inl (λ e. ground arith)
told recv_method u h = inl (λ e. ground arith)
told send_auth u h = inl (λ e. ground arith)
told recv_auth u h = inl (λ e. ground arith)
told send_request u h = inl (λ e. ground arith)
told recv_reply u h = inl (λ e. ground arith)
told forwarding u h = inl (λ e. ground arith)

-- Every event of the epoll callback ends in a turn, no assertion fails: it leads from the present
-- phase to one that may follow it, and a turn that leaves the handshake failed tells the user all
-- events. The name and the password have at most
-- 255 bytes, the buffer is within its capacity, and inet_pton() gives 4 or 16 bytes.
pub events-Follows :
    (conf : NspConf) (inet : Inet) (calls : Calls) (events : ℕ) (self : ProxySocks)
    → InetLaws inet
    → Fits conf self
    → (t : Turn) × (socks_epcb_events conf inet calls events self ≡ some t)
      × Follows self.phase t.self.phase
      × ((t.self.phase ≢ failed) ⊎ (t.user ≡ some all_events))
unfolding socks_epcb_events
events-Follows conf inet calls events self laws fits =
    out (dispatch conf inet calls events self.phase self)
      (dispatch-Good conf inet calls events self.phase self laws fits refl)
  where
    out :
        (o : Option Turn)
        → Good self.phase o
        → (t : Turn) × (o ≡ some t)
          × Follows self.phase t.self.phase
          × ((t.self.phase ≢ failed) ⊎ (t.user ≡ some all_events))
    out none g = absurd g
    out (some t) (f, u) = (t, refl, f, told t.self.phase t.user u)
