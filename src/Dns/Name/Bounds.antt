-- ===== src/Dns/Name/Bounds.antt =====
-- dns_read_name() of src/core.c stays inside the message and inside the output buffer.
use nsproxy.Common.{
  ℕ, zero, suc, ◌+◌, ◌≤◌, ◌<◌, ◌≡◌, refl, ◌⊎◌, inl, inr, Bool, true, false, not, ◌&&◌, ◌||◌, Option,
  none, some, List, [], ◌∷◌, ◌++◌, arith, ltb, leb, ◌==◌, if◌then◌else◌, Bool-cases, if_cases,
  length, length-append, get_elem?_below,
}
use nsproxy.Rules.Text.{to_lower}
use nsproxy.Dns.Name.{
  NameResult, bad, overread, name, Step, stop, next, pointer_step, end_step, copy_label, dotted,
  label_step, step, name_loop, dns_read_name,
}

-- What the loop keeps: an offset that was saved lies behind the start, and `pos` is not before it.
abbrev SavedOk : List ℕ → ℕ → ℕ → Option ℕ → Type 0
SavedOk msg start pos none = start ≤ pos
SavedOk msg start pos (some o) = (start < o) × (o ≤ length msg)

abbrev OutOk : ℕ → List ℕ → Type 0
OutOk outlen out = (length out ≡ 0) ⊎ (length out < outlen)

-- A good result: no read behind the message, and an offset and a name within their bounds.
abbrev pub ResultOk : List ℕ → ℕ → ℕ → NameResult → Type 0
ResultOk msg start outlen bad = Unit {0}
ResultOk msg start outlen overread = ⊥
ResultOk msg start outlen (name o text) =
    (start < o) × (o ≤ length msg) × (0 < length text) × (length text < outlen)

abbrev StepOk : List ℕ → ℕ → ℕ → Step → Type 0
StepOk msg start outlen (stop r) = ResultOk msg start outlen r
StepOk msg start outlen (next pos out saved) = SavedOk msg start pos saved × OutOk outlen out

copy_label-some :
    (msg : List ℕ) (len pos : ℕ) (out : List ℕ)
    → pos + len ≤ length msg
    → (out' : List ℕ) × (copy_label msg len pos out ≡ some out') × (length out' ≡ length out + len)
unfolding copy_label
copy_label-some msg zero pos out h = (out, refl, omega arith)
copy_label-some msg (suc len) pos out h =
    let (ch, e) = get_elem?_below msg pos (omega arith) in
    let (out', f, g) =
      copy_label-some msg len (pos + 1) (out ++ (to_lower ch ∷ [])) (omega arith) in
    (out', rw (e, copy_label) f, omega (arith, g, length-append out (to_lower ch ∷ [])))

pointer_step-StepOk :
    (msg : List ℕ) (start outlen len pos : ℕ) (out : List ℕ) (saved : Option ℕ)
    → SavedOk msg start pos saved
    → OutOk outlen out
    → StepOk msg start outlen (pointer_step msg len pos out saved)
unfolding pointer_step
pointer_step-StepOk msg start outlen len pos out saved hs ho =
    elim (Bool-cases (leb (length msg) (pos + 1))) [
      | inl past ↦ rw past tt
      | inr inside ↦
          let (low, e) = get_elem?_below msg (pos + 1) (ground arith) in
          rw (inside, e) (ground arith)
    ]

end_step-StepOk :
    (msg : List ℕ) (start outlen pos : ℕ) (out : List ℕ) (saved : Option ℕ)
    → SavedOk msg start pos saved
    → pos < length msg
    → OutOk outlen out
    → StepOk msg start outlen (end_step outlen (pos + 1) out saved)
unfolding end_step
end_step-StepOk msg start outlen pos [] saved hs hp ho = ground arith
end_step-StepOk msg start outlen pos (c ∷ out) saved hs hp ho = ground arith

length-dotted : (out : List ℕ) → length (dotted out) ≤ length out + 1
length-dotted [] = omega arith
length-dotted (c ∷ out) = omega (arith, length-append (c ∷ out) (b'.' ∷ []))

SavedOk-later :
    (msg : List ℕ) (start pos k : ℕ) (saved : Option ℕ)
    → SavedOk msg start pos saved
    → SavedOk msg start (pos + k) saved
SavedOk-later msg start pos k none h = omega arith
SavedOk-later msg start pos k (some o) h = h

label_copied :
    (msg : List ℕ) (start outlen len pos : ℕ) (out out' : List ℕ) (saved : Option ℕ)
    → SavedOk msg start pos saved
    → copy_label msg len pos (dotted out) ≡ some out'
    → length out' ≡ length (dotted out) + len
    → pos + len ≤ length msg
    → StepOk msg start outlen (label_step msg outlen len pos out saved)
unfolding label_step
label_copied msg start outlen len pos out out' saved hs e g room =
    let final = next (pos + len) out' saved in
    let fits = if leb outlen (length (dotted out) + len) then stop bad else final in
    let dots = if not (length out == 0) && leb outlen (length out + 1) then stop bad else fits in
    rw e (
      if_cases P (ltb 63 len || ltb (length msg) (pos + len)) (stop bad) dots (λ _. tt)
        (λ _.
          if_cases P (not (length out == 0) && leb outlen (length out + 1)) (stop bad) fits
            (λ _. tt)
            (λ _.
              if_cases P (leb outlen (length (dotted out) + len)) (stop bad) final (λ _. tt)
                (λ h. (SavedOk-later msg start pos len saved hs, inr (ground (arith, g)))))))
  where
    P : Step → Type 0
    P = StepOk msg start outlen

label_step-StepOk :
    (msg : List ℕ) (start outlen len pos : ℕ) (out : List ℕ) (saved : Option ℕ)
    → SavedOk msg start pos saved
    → StepOk msg start outlen (label_step msg outlen len pos out saved)
label_step-StepOk msg start outlen len pos out saved hs =
    elim (Bool-cases (ltb (length msg) (pos + len))) [
      | inl long ↦ unfold label_step in rw (long, ||_true (ltb 63 len)) tt
      | inr short ↦
          let room : pos + len ≤ length msg = ground arith in
          let (out', e, g) = copy_label-some msg len pos (dotted out) room in
          label_copied msg start outlen len pos out out' saved hs e g room
    ]
  where
    ||_true : (b : Bool) → (b || true) ≡ true
    ||_true true = refl
    ||_true false = refl

step-StepOk :
    (msg : List ℕ) (start outlen pos : ℕ) (out : List ℕ) (saved : Option ℕ)
    → SavedOk msg start pos saved
    → OutOk outlen out
    → StepOk msg start outlen (step msg outlen pos out saved)
unfolding step
step-StepOk msg start outlen pos out saved hs ho = elim (Bool-cases (leb (length msg) pos)) [
  | inl past ↦ rw past tt
  | inr inside ↦
      let (len, e) = get_elem?_below msg pos (ground arith) in
      let further : SavedOk msg start (pos + 1) saved = SavedOk-later msg start pos 1 saved hs in
      let in_msg : pos < length msg = ground arith in
      rw (inside, e)
        (ground (
          arith,
          pointer_step-StepOk msg start outlen len pos out saved hs ho,
          end_step-StepOk msg start outlen pos out saved hs in_msg ho,
          label_step-StepOk msg start outlen len (pos + 1) out saved further,
        ))
]

name_loop-ResultOk :
    (msg : List ℕ) (start outlen jumps pos : ℕ) (out : List ℕ) (saved : Option ℕ)
    → SavedOk msg start pos saved
    → OutOk outlen out
    → ResultOk msg start outlen (name_loop msg outlen jumps pos out saved)
unfolding name_loop
name_loop-ResultOk msg start outlen zero pos out saved hs ho = tt
name_loop-ResultOk msg start outlen (suc jumps) pos out saved hs ho =
    go (step msg outlen pos out saved) (name_loop-ResultOk msg start outlen jumps)
      (step-StepOk msg start outlen pos out saved hs ho)
  where
    go :
        (s : Step)
        → ((pos' : ℕ) (out' : List ℕ) (saved' : Option ℕ)
            → SavedOk msg start pos' saved'
            → OutOk outlen out'
            → ResultOk msg start outlen (name_loop msg outlen jumps pos' out' saved'))
        → StepOk msg start outlen s
        → ResultOk msg start outlen (elim s [
          | stop r ↦ r
          | next pos' out' saved' ↦ name_loop msg outlen jumps pos' out' saved'
        ])
    go (stop r) ih h = h
    go (next pos' out' saved') ih h = ih pos' out' saved' h.0 h.1

-- On any message, from any offset, the reader touches no byte behind the message. A name that it
-- returns is not empty and, with its NUL, fits the buffer; the new offset lies behind the old one
-- and at most at the end of the message, however the compression pointers lead.
pub dns_read_name-ResultOk :
    (msg : List ℕ) (offset outlen : ℕ)
    → ResultOk msg offset outlen (dns_read_name msg offset outlen)
unfolding dns_read_name
dns_read_name-ResultOk msg offset outlen =
    name_loop-ResultOk msg offset outlen 128 offset [] none (omega arith) (inl refl)

-- The two ways a call can end.
pub read_name_cases :
    (msg : List ℕ) (offset outlen : ℕ)
    → (dns_read_name msg offset outlen ≡ bad)
      ⊎ ((o : ℕ) × (text : List ℕ) × (dns_read_name msg offset outlen ≡ name o text)
          × (offset < o)
          × (o ≤ length msg))
read_name_cases msg offset outlen =
    go (dns_read_name msg offset outlen) refl (dns_read_name-ResultOk msg offset outlen)
  where
    go :
        (r : NameResult)
        → dns_read_name msg offset outlen ≡ r
        → ResultOk msg offset outlen r
        → (dns_read_name msg offset outlen ≡ bad)
          ⊎ ((o : ℕ) × (text : List ℕ) × (dns_read_name msg offset outlen ≡ name o text)
              × (offset < o)
              × (o ≤ length msg))
    go bad e h = inl e
    go overread e h = absurd h
    go (name o text) e h = inr (o, text, e, h.0, h.1)
