-- ===== src/Skutils/Events.antt =====
-- skutils_evctl() of src/skutils.c keeps `*events` in step with what epoll has registered.
use nsproxy.Common.{
  ℕ, bit_and, bit_or, ◌∙◌, sym, ◌≡◌, refl, ap, ◌≢◌, ◌⊎◌, inl, inr, Option, none, some, arith, ◌==◌,
  if◌then◌else◌, ==_iff, Bool-cases,
}
use nsproxy.Skutils.{
  Ctl, add, del, modify, Mode, evclr, evset, evupd, other, complement, count, errno, enoent, eexist,
  EvCtl, choose_op, new_events, apply_events, skutils_evctl, einval,
}

-- epoll_ctl(2) on one descriptor: its registration is a mask, or there is none.
abbrev pub epoll_answer : Option ℕ → Ctl → ℕ
epoll_answer none c = elim c.op [ add ↦ 0 | _ ↦ enoent ]
epoll_answer (some m) c = elim c.op [ add ↦ eexist | _ ↦ 0 ]

abbrev pub epoll_after : Option ℕ → Ctl → Option ℕ
epoll_after none c = elim c.op [ add ↦ some c.mask | _ ↦ none ]
epoll_after (some m) c = elim c.op [ add ↦ some m | del ↦ none | modify ↦ some c.mask ]

-- `*events` is 0 exactly when nothing is registered, and otherwise the mask that is.
abbrev pub registered : ℕ → Option ℕ
registered events = if events == 0 then none else some events

abbrev pub after_call : Option ℕ → Option Ctl → Option ℕ
after_call reg none = reg
after_call reg (some c) = epoll_after reg c

apply_events-registered :
    (events new : ℕ)
    → let r = apply_events (epoll_answer (registered events)) events (some new) in
      (r.ret ≡ count 0)
      × ((r.events ≡ new) × (after_call (registered events) r.call ≡ registered new))
unfolding apply_events choose_op
apply_events-registered events new = ground arith

apply_events-invalid :
    (events : ℕ)
    → apply_events (epoll_answer (registered events)) events none
      ≡ record { ret = errno einval; events = events; call = none }
unfolding apply_events
apply_events-invalid events = refl

-- The mask that a mode asks for.
abbrev pub Asked : ℕ → ℕ → Mode → ℕ → Type 0
Asked events mask evclr new = new ≡ bit_and events (complement mask)
Asked events mask evset new = new ≡ bit_or events mask
Asked events mask evupd new = new ≡ mask
Asked events mask other new = ⊥

-- In step with epoll before: in any of the three modes the call succeeds, the operation chosen is one
-- that epoll accepts, `*events` is the mask that the mode asks for, and epoll has that mask, or no
-- registration if it is 0. Any other mode is EINVAL, and calls and changes nothing.
pub evctl-registered :
    (events mask : ℕ) (mode : Mode)
    → let r = skutils_evctl (epoll_answer (registered events)) events mask mode in
      ((r.ret ≡ count 0)
        × (Asked events mask mode r.events
            × (after_call (registered events) r.call ≡ registered r.events)))
      ⊎ ((mode ≡ other) × (r ≡ record { ret = errno einval; events = events; call = none }))
unfolding skutils_evctl new_events
evctl-registered events mask evclr =
    let (ret, (new, step)) = apply_events-registered events (bit_and events (complement mask)) in
    inl (ret, (new, step ∙ ap registered (sym new)))
evctl-registered events mask evset =
    let (ret, (new, step)) = apply_events-registered events (bit_or events mask) in
    inl (ret, (new, step ∙ ap registered (sym new)))
evctl-registered events mask evupd =
    let (ret, (new, step)) = apply_events-registered events mask in
    inl (ret, (new, step ∙ ap registered (sym new)))
evctl-registered events mask other = inr (refl, apply_events-invalid events)

abbrev pub Outcome : ℕ → Option ℕ → EvCtl → Type 0
Outcome events new r =
    ((r.ret ≡ count 0) × (some r.events ≡ new))
    ⊎ ((e : ℕ) × (r.ret ≡ errno e) × (r.events ≡ events) × (e ≢ 0))

apply-Outcome :
    (ctl : Ctl → ℕ) (events : ℕ) (new : Option ℕ) → Outcome events new (apply_events ctl events new)
unfolding apply_events
apply-Outcome ctl events none = inr (einval, refl, refl, λ e. omega arith)
apply-Outcome ctl events (some new) =
    let c : Ctl = record { op = choose_op events new; mask = new } in
    elim (Bool-cases (events == new)) [
      | inl same ↦ rw same (inl (refl, ap some ((==_iff events new).0 same)))
      | inr differs ↦ elim (Bool-cases (ctl c == 0)) [
        | inl ok ↦ rw (differs, ok) (inl (refl, refl))
        | inr bad ↦
            rw (differs, bad) (inr (ctl c, refl, refl, λ e. cc (bad, (==_iff (ctl c) 0).1 e)))
      ]
    ]

-- A call succeeds with the new mask in `*events`, or it returns an error and leaves `*events` as it
-- was, whatever epoll answers.
pub evctl-Outcome :
    (ctl : Ctl → ℕ) (events mask : ℕ) (mode : Mode)
    → Outcome events (new_events events mask mode) (skutils_evctl ctl events mask mode)
unfolding skutils_evctl
evctl-Outcome ctl events mask mode = apply-Outcome ctl events (new_events events mask mode)
