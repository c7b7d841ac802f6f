-- ===== src/Core/Assoc/Valid.antt =====
-- The validity of the UDP association of src/core.c, which its events and timers keep.
use nsproxy.Common.{
  ℕ, zero, suc, ◌+◌, ◌-◌, ◌%◌, ◌^◌, ◌≤◌, ◌≡◌, refl, inl, inr, Bool, true, false, not, ◌&&◌, ◌||◌,
  Option, none, some, List, [], ◌∷◌, arith, ltb, leb, ◌==◌, leb→le, Bool-cases, if_cases, length,
  All, All-append,
}
use nsproxy.Rules.Conf.{NspConf}
use nsproxy.Skutils.{Ret}
use nsproxy.Core.Udp.{UdpForward, UdpTurn, udp_proxy_output, udp_lwip_received, offer_all}
use nsproxy.Core.Assoc.{
  Assoc, is_socks5, countdown, core_start_udp_assoc, connected, Settling, kept, settle, settle_all,
  pending_route, drop_pending, assoc_broken, udp_assoc_io_event, gc_udp, core_has_pending_udp_assoc,
  core_reassoc_tmr, second,
}

abbrev pub HasProxy : UdpForward → Type 0
HasProxy f = f.proxy ≡ true

-- Once the association is ready it is there, and nobody waits for it. Without SOCKS5 nobody waits at
-- all. The countdown is at most 32 seconds.
pub record AssocValid (conf : NspConf) (core : Assoc) : Type 0 where
  pub there : is_socks5 conf.proxytype ≡ true → core.assocready ≡ true → core.udpassoc ≡ true
  pub settled : core.assocready ≡ true → All HasProxy core.udplst
  pub only_socks : is_socks5 conf.proxytype ≡ false → All HasProxy core.udplst
  pub capped : core.assoccd ≤ 32

exponent_capped : (n : ℕ) → n ≤ 5 → 2 ^ n ≤ 32
exponent_capped zero h = omega arith
exponent_capped (suc zero) h = omega arith
exponent_capped (suc (suc zero)) h = omega arith
exponent_capped (suc (suc (suc zero))) h = omega arith
exponent_capped (suc (suc (suc (suc zero)))) h = omega arith
exponent_capped (suc (suc (suc (suc (suc n))))) h =
    let e : n ≡ 0 = omega arith in rw e (omega arith)

countdown_capped : (retries : ℕ) → countdown retries ≤ 32
unfolding countdown
countdown_capped retries = elim (Bool-cases (leb retries 5)) [
  | inl small ↦ rw small (exponent_capped retries (leb→le retries 5 small))
  | inr big ↦ rw big (omega arith)
]

-- A forward may be added that has its proxy, or one that waits, if it may.
push_valid :
    (conf : NspConf) (core : Assoc) (f : UdpForward)
    → AssocValid conf core
    → f.proxy ≡ true
    → AssocValid conf (record core { udplst = f ∷ core.udplst })
push_valid conf core f v h = record {
  there = v.there;
  settled = λ r. (h, v.settled r);
  only_socks = λ s. (h, v.only_socks s);
  capped = v.capped;
}

pub connected_valid :
    (conf : NspConf) (made : Bool) (f : UdpForward) (core : Assoc)
    → AssocValid conf core
    → AssocValid conf (connected made f core)
connected_valid conf true f core v = push_valid conf core (record f { proxy = true }) v refl
connected_valid conf false f core v = v

pub start_valid :
    (conf : NspConf) (made : Bool) (core : Assoc)
    → AssocValid conf core
    → AssocValid conf (core_start_udp_assoc conf made core)
unfolding core_start_udp_assoc
start_valid conf made core v =
    if_cases (AssocValid conf)
      (core.udpassoc || (core.assocready || not (is_socks5 conf.proxytype))) core _ (λ _. v)
      (λ idle.
        if_cases (AssocValid conf) (ltb 0 core.assoccd) core _ (λ _. v)
          (λ _. record {
            there = λ _ r. ground (arith, idle, r);
            settled = v.settled;
            only_socks = v.only_socks;
            capped =
                if_cases (λ t. t ≤ 32) made core.assoccd _ (λ _. v.capped)
                  (λ _. countdown_capped ((core.assocretries + 1) % 2 ^ 32));
          }))

drop_pending-HasProxy : (fs : List UdpForward) → All HasProxy (drop_pending fs)
unfolding drop_pending
drop_pending-HasProxy [] = tt
drop_pending-HasProxy (f ∷ fs) =
    if_cases (All HasProxy) f.proxy (f ∷ drop_pending fs) (drop_pending fs)
      (λ h. (h, drop_pending-HasProxy fs)) (λ _. drop_pending-HasProxy fs)

pub kept_proxy : (t : UdpTurn) → t.fwd.proxy ≡ true → All HasProxy (kept t)
kept_proxy t h = if_cases (All HasProxy) t.destroyed [] (t.fwd ∷ []) (λ _. tt) (λ _. (h, tt))

pub output_proxy :
    (send : ℕ → List ℕ → Ret) (f : UdpForward) → (udp_proxy_output send f).fwd.proxy ≡ f.proxy
unfolding udp_proxy_output
output_proxy send f = elim (Bool-cases (offer_all send 0 f.rcvq).1) [
  | inl e ↦ rw e refl
  | inr e ↦ rw e refl
]

pub received_proxy :
    (send : ℕ → List ℕ → Ret) (p : Option (List ℕ)) (f : UdpForward)
    → (udp_lwip_received send p f).fwd.proxy ≡ f.proxy
unfolding udp_lwip_received
received_proxy send none f = refl
received_proxy send (some p) f =
    if_cases (λ (t : UdpTurn). t.fwd.proxy ≡ f.proxy) f.proxy _ _ (λ _. output_proxy send _)
      (λ _. refl)

settle-HasProxy :
    (conf : NspConf) (s : Settling) (i : ℕ) (f : UdpForward) → All HasProxy (settle conf s i f)
unfolding settle
settle-HasProxy conf s i f =
    if_cases (All HasProxy) f.proxy (f ∷ []) _ (λ h. (h, tt))
      (λ _.
        if_cases (All HasProxy) (not (s.made i (pending_route conf f))) [] _ (λ _. tt)
          (λ _.
            if_cases (All HasProxy) (length f.rcvq == 0) _ _ (λ _. (refl, tt))
              (λ _.
                kept_proxy (udp_proxy_output (s.send i) (record f { proxy = true }))
                  (output_proxy (s.send i) (record f { proxy = true })))))

pub settle_all-HasProxy :
    (conf : NspConf) (s : Settling) (i : ℕ) (fs : List UdpForward)
    → All HasProxy (settle_all conf s i fs)
unfolding settle_all
settle_all-HasProxy conf s i [] = tt
settle_all-HasProxy conf s i (f ∷ fs) =
    All-append HasProxy _ _ (settle-HasProxy conf s i f) (settle_all-HasProxy conf s (i + 1) fs)

gc_udp-HasProxy : (fs : List UdpForward) → All HasProxy fs → All HasProxy (gc_udp fs)
unfolding gc_udp
gc_udp-HasProxy [] h = tt
gc_udp-HasProxy (f ∷ fs) (p, h) =
    if_cases (All HasProxy) (f.gc == 0) (gc_udp fs) (record f { gc = f.gc - 1 } ∷ gc_udp fs)
      (λ _. gc_udp-HasProxy fs h) (λ _. (p, gc_udp-HasProxy fs h))

timer_valid :
    (conf : NspConf) (made : Bool) (core : Assoc)
    → AssocValid conf core
    → AssocValid conf (core_reassoc_tmr conf made core)
unfolding core_reassoc_tmr
timer_valid conf made core v =
    let fewer : Assoc = record core { assoccd = core.assoccd - 1 } in
    let smaller : fewer.assoccd ≤ 32 = omega (arith, v.capped) in
    if_cases (AssocValid conf) (not (is_socks5 conf.proxytype)) core _ (λ _. v)
      (λ _.
        if_cases (AssocValid conf)
          (not core.udpassoc && (not core.assocready && core_has_pending_udp_assoc core)) _ core
          (λ _.
            if_cases (AssocValid conf) (ltb 0 core.assoccd) fewer _
              (λ _. record {
                there = v.there;
                settled = v.settled;
                only_socks = v.only_socks;
                capped = smaller;
              })
              (λ _. start_valid conf made core v))
          (λ _. v))

pub second_valid :
    (conf : NspConf) (made : Bool) (core : Assoc)
    → AssocValid conf core
    → AssocValid conf (second conf made core)
unfolding second
second_valid conf made core v = timer_valid conf made _ (record {
  there = v.there;
  settled = λ r. gc_udp-HasProxy core.udplst (v.settled r);
  only_socks = λ s. gc_udp-HasProxy core.udplst (v.only_socks s);
  capped = v.capped;
})

pub io_event_valid :
    (conf : NspConf) (s : Settling) (events : ℕ) (core : Assoc)
    → core.udpassoc ≡ true
    → AssocValid conf core
    → AssocValid conf (udp_assoc_io_event conf s events core)
unfolding udp_assoc_io_event
io_event_valid conf s events core here v =
    if_cases (AssocValid conf) (assoc_broken events) _ _
      (λ _. record {
        there = λ _ r. cc (r);
        settled = λ _. drop_pending-HasProxy core.udplst;
        only_socks = λ _. drop_pending-HasProxy core.udplst;
        capped = countdown_capped core.assocretries;
      })
      (λ _. record {
        there = λ _ _. here;
        settled = λ _. settle_all-HasProxy conf s 0 core.udplst;
        only_socks = λ _. settle_all-HasProxy conf s 0 core.udplst;
        capped = v.capped;
      })
