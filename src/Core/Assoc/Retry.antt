-- ===== src/Core/Assoc/Retry.antt =====
-- How long a UDP forward waits for another attempt at an association: core_reassoc_tmr() and
-- core_start_udp_assoc() of src/core.c over the seconds.
use nsproxy.Common.{
  ℕ, zero, suc, ◌+◌, ◌-◌, ◌%◌, ◌^◌, ◌≤◌, ◌≡◌, refl, sym, inl, inr, Bool, true, false, not, List, [],
  ◌∷◌, arith, ltb, ◌==◌, ||_right, if_cases, any, Some,
}
use nsproxy.Rules.Conf.{NspConf}
use nsproxy.Core.Udp.{UdpForward}
use nsproxy.Core.Assoc.Valid.{AssocValid}
use nsproxy.Core.Assoc.{
  Assoc, is_socks5, core_start_udp_assoc, gc_udp, core_has_pending_udp_assoc, core_reassoc_tmr,
  second,
}

-- `n` seconds in which nothing else happens; no attempt is made but the last, whose answer is `made`.
abbrev pub seconds : NspConf → Bool → ℕ → Assoc → Assoc
seconds conf made zero core = core
seconds conf made (suc n) core = seconds conf made n (second conf made core)

-- A forward that still has this many seconds before the garbage collection takes it, and waits.
abbrev pub Waits : ℕ → UdpForward → Type 0
Waits n f = (f.proxy ≡ false) × (n ≤ f.gc)

-- The forward after `n` seconds is in the list.
gc_udp-Some : (n : ℕ) (fs : List UdpForward) → Some (Waits (suc n)) fs → Some (Waits n) (gc_udp fs)
unfolding gc_udp
gc_udp-Some n [] h = elim h [ ]
gc_udp-Some n (f ∷ fs) (inl (p, h)) =
    let alive : (f.gc == 0) ≡ false = ground arith in rw alive (inl (p, omega arith))
gc_udp-Some n (f ∷ fs) (inr h) =
    if_cases (Some (Waits n)) (f.gc == 0) _ _ (λ _. gc_udp-Some n fs h)
      (λ _. inr (gc_udp-Some n fs h))

-- Whoever waits is seen.
Some-pending :
    (n : ℕ) (core : Assoc) → Some (Waits n) core.udplst → core_has_pending_udp_assoc core ≡ true
unfolding core_has_pending_udp_assoc
Some-pending n core h = pending core.udplst h
  where
    pending : (fs : List UdpForward) → Some (Waits n) fs → any (λ f. not f.proxy) fs ≡ true
    pending [] h = elim h [ ]
    pending (f ∷ fs) (inl (p, _)) = rw p refl
    pending (f ∷ fs) (inr h) = ||_right (not f.proxy) (any (λ g. not g.proxy) fs) (pending fs h)

-- The state in which a second is either counted down or ends with an attempt.
pub record Starved (conf : NspConf) (core : Assoc) : Type 0 where
  pub socks : is_socks5 conf.proxytype ≡ true
  pub absent : core.udpassoc ≡ false
  pub unready : core.assocready ≡ false
  pub waiting : Some (Waits (suc core.assoccd)) core.udplst

second_wait :
    (conf : NspConf) (made : Bool) (core : Assoc) (n : ℕ)
    → Starved conf core
    → core.assoccd ≡ suc n
    → second conf made core ≡ record core { udplst = gc_udp core.udplst; assoccd = n }
unfolding second core_reassoc_tmr
second_wait conf made core n s e =
    let alive =
      Some-pending core.assoccd (record core { udplst = gc_udp core.udplst })
        (gc_udp-Some core.assoccd core.udplst s.waiting) in
    let positive : ltb 0 (suc n) ≡ true = ground arith in
    let back : suc n - 1 ≡ n = omega arith in
    rw (alive, s.socks, s.absent, s.unready, e, positive, back) refl

second_attempt :
    (conf : NspConf) (made : Bool) (core : Assoc)
    → Starved conf core
    → core.assoccd ≡ 0
    → let next = second conf made core in
      (next.udpassoc ≡ made) × (next.assocretries ≡ (core.assocretries + 1) % 2 ^ 32)
unfolding second core_reassoc_tmr core_start_udp_assoc
second_attempt conf made core s e =
    let alive =
      Some-pending core.assoccd (record core { udplst = gc_udp core.udplst })
        (gc_udp-Some core.assoccd core.udplst s.waiting) in
    rw (alive, s.socks, s.absent, s.unready, e) (refl, refl)

-- The countdown goes on as long as somebody waits.
second-Starved :
    (conf : NspConf) (made : Bool) (core : Assoc) (n : ℕ)
    → Starved conf core
    → core.assoccd ≡ suc n
    → Starved conf (record core { udplst = gc_udp core.udplst; assoccd = n })
second-Starved conf made core n s e = record {
  socks = s.socks;
  absent = s.absent;
  unready = s.unready;
  waiting = gc_udp-Some (suc n) core.udplst (rw (sym e) s.waiting);
}

attempt_after :
    (conf : NspConf) (made : Bool) (n : ℕ) (core : Assoc)
    → Starved conf core
    → core.assoccd ≡ n
    → let last = seconds conf made (suc n) core in
      (last.udpassoc ≡ made) × (last.assocretries ≡ (core.assocretries + 1) % 2 ^ 32)
attempt_after conf made zero core s e = second_attempt conf made core s e
attempt_after conf made (suc n) core s e =
    rw (seconds, second_wait conf made core n s e)
      (attempt_after conf made n _ (second-Starved conf made core n s e) refl)

-- In a valid state of a SOCKS5 configuration without an association, somebody waits who is not
-- collected before the countdown ends. Then an attempt is made after the countdown and one more
-- second, hence after at most 33 seconds: the retries are one more, and the association is there
-- exactly when the attempt made it.
pub core_reassoc_tmr_retries :
    (conf : NspConf) (made : Bool) (core : Assoc)
    → AssocValid conf core
    → Starved conf core
    → let last = seconds conf made (suc core.assoccd) core in
      (suc core.assoccd ≤ 33)
      × (last.udpassoc ≡ made)
      × (last.assocretries ≡ (core.assocretries + 1) % 2 ^ 32)
core_reassoc_tmr_retries conf made core v s =
    let done = attempt_after conf made core.assoccd core s refl in
    (omega (arith, v.capped), done.0, done.1)
