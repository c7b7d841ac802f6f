-- ===== src/Core/Forwards/Idle.antt =====
-- How long an idle forward of src/core.c stays.
use nsproxy.Common.{
  ℕ, zero, suc, ◌-◌, ◌≤◌, ◌≡◌, refl, ap, ◌∙◌, ◌≢◌, inl, inr, true, false, List, [], ◌∷◌, arith, ltb,
  ◌==◌, if◌then◌else◌, ltb→lt, lt→ltb, ==_iff, Bool-cases, ltb-false, ==_false, le_of_ltb,
}
use nsproxy.Core.Tcp.{TcpForward}
use nsproxy.Core.Udp.{UdpForward}
use nsproxy.Core.Assoc.{gc_udp}
use nsproxy.Core.Forwards.{Forwards, gc_tcp, core_gc_tmr}

-- Entries with a countdown, which can be read and set.
module _ {A : Type 0} (gc : A → ℕ) (set : ℕ → A → A) where
  abbrev pub collect : List A → List A
  collect [] = []
  collect (a ∷ as') = if gc a == 0 then collect as' else set (gc a - 1) a ∷ collect as'

  -- Those that have `n` seconds left, with so many fewer.
  abbrev pub aged : ℕ → List A → List A
  aged n [] = []
  aged n (a ∷ as') = if ltb (gc a) n then aged n as' else set (gc a - n) a ∷ aged n as'

  module _ (set_same : (a : A) → set (gc a) a ≡ a) (gc_set : (n : ℕ) (a : A) → gc (set n a) ≡ n)
      (set_set : (n m : ℕ) (a : A) → set n (set m a) ≡ set n a) where
    aged_zero : (xs : List A) → xs ≡ aged 0 xs
    aged_zero [] = refl
    aged_zero (a ∷ xs) =
        let never : ltb (gc a) 0 ≡ false = ltb-false (gc a) 0 (omega arith) in
        let whole : gc a - 0 ≡ gc a = omega arith in
        rw (never, whole, set_same a) (ap (◌∷◌ a) (aged_zero xs))

    collect-aged : (n : ℕ) (xs : List A) → collect (aged n xs) ≡ aged (suc n) xs
    collect-aged n [] = refl
    collect-aged n (a ∷ xs) = elim (Bool-cases (ltb (gc a) n)) [
      | inl gone ↦
          (let still : ltb (gc a) (suc n) ≡ true =
              lt→ltb (gc a) (suc n) (omega (arith, ltb→lt (gc a) n gone)) in
            rw (gone, still) (collect-aged n xs))
      | inr here ↦ elim (Bool-cases (gc a == n)) [
        | inl last ↦
            (let e = (==_iff (gc a) n).0 last in
              let zero_left : (gc a - n == 0) ≡ true = (==_iff (gc a - n) 0).1 (omega (arith, e)) in
              let out : ltb (gc a) (suc n) ≡ true = lt→ltb (gc a) (suc n) (omega (arith, e)) in
              rw (here, out, gc_set (gc a - n) a, zero_left) (collect-aged n xs))
        | inr more ↦
            (let above : suc n ≤ gc a =
                omega (arith, le_of_ltb (gc a) n here, apart (gc a) n more) in
              let left : (gc a - n == 0) ≡ false =
                ==_false (gc a - n) 0 (λ z. omega (arith, above, z)) in
              let stays : ltb (gc a) (suc n) ≡ false = ltb-false (gc a) (suc n) above in
              let one_less : gc a - n - 1 ≡ gc a - suc n = omega arith in
              rw
                (
                  here,
                  stays,
                  gc_set (gc a - n) a,
                  left,
                  set_set (gc a - n - 1) (gc a - n) a,
                  one_less,
                )
                (ap (◌∷◌ (set (gc a - suc n) a)) (collect-aged n xs)))
      ]
    ]
      where
        apart : (k m : ℕ) → (k == m) ≡ false → k ≢ m
        apart k m h e = cc (h, (==_iff k m).1 e)

abbrev set_udp : ℕ → UdpForward → UdpForward
set_udp n f = record f { gc = n }

abbrev pub udp_left : ℕ → List UdpForward → List UdpForward
udp_left = aged (λ f. f.gc) set_udp

gc_udp-collect : (fs : List UdpForward) → gc_udp fs ≡ collect (λ f. f.gc) set_udp fs
unfolding gc_udp
gc_udp-collect [] = refl
gc_udp-collect (f ∷ fs) = rw (gc_udp-collect fs) refl

abbrev set_tcp : {C : Type 0} → ℕ → TcpForward C → TcpForward C
set_tcp n f = record f { gc = n }

abbrev pub tcp_left : {C : Type 0} → ℕ → List (TcpForward C) → List (TcpForward C)
tcp_left = aged (λ f. f.gc) set_tcp

gc_tcp-collect :
    {C : Type 0} (fs : List (TcpForward C)) → gc_tcp fs ≡ collect (λ f. f.gc) set_tcp fs
unfolding gc_tcp
gc_tcp-collect [] = refl
gc_tcp-collect (f ∷ fs) = rw (gc_tcp-collect fs) refl

-- Seconds in which nothing is forwarded.
abbrev pub idle_seconds : {C : Type 0} → ℕ → Forwards C → Forwards C
idle_seconds zero core = core
idle_seconds (suc n) core = core_gc_tmr (idle_seconds n core)

abbrev forwards : {C : Type 0} → List (TcpForward C) → List UdpForward → Forwards C
forwards t u = record { tcplst = t; udplst = u }

both :
    {C : Type 0} {t t' : List (TcpForward C)} {u u' : List UdpForward}
    → t ≡ t'
    → u ≡ u'
    → forwards t u ≡ forwards t' u'
both e f = rw (e, f) refl

-- After any number of seconds without traffic, exactly those forwards of both lists are left, in order,
-- whose countdown was at least that number, and it is that much lower: a forward is destroyed in the
-- second after its countdown has reached 0, and not before.
pub core_gc_tmr-idle :
    {C : Type 0} (n : ℕ) (core : Forwards C)
    → idle_seconds n core
      ≡ record { tcplst = tcp_left n core.tcplst; udplst = udp_left n core.udplst }
unfolding core_gc_tmr
core_gc_tmr-idle zero core =
    both (aged_zero (λ f. f.gc) set_tcp (λ a. refl) (λ k a. refl) (λ k m a. refl) core.tcplst)
      (aged_zero (λ f. f.gc) set_udp (λ a. refl) (λ k a. refl) (λ k m a. refl) core.udplst)
core_gc_tmr-idle (suc n) core =
    ap core_gc_tmr (core_gc_tmr-idle n core)
    ∙ both
        (gc_tcp-collect (tcp_left n core.tcplst)
          ∙ collect-aged (λ f. f.gc) set_tcp (λ a. refl) (λ k a. refl) (λ k m a. refl) n
              core.tcplst)
        (gc_udp-collect (udp_left n core.udplst)
          ∙ collect-aged (λ f. f.gc) set_udp (λ a. refl) (λ k a. refl) (λ k m a. refl) n
              core.udplst)
