-- ===== src/Dns/Name.antt =====
-- src/core.c: dns_read_name() and dns_skip_name(). The text written so far is a list, whose length is
-- `nout`. `overread` is no result of the source: it stands for a read behind the message.
pub mod Bounds
pub mod RoundTrip
use nsproxy.Common.{
  ℕ, zero, suc, ◌+◌, ◌-◌, ◌*◌, ◌/◌, ◌%◌, ◌^◌, ◌≤◌, ◌<◌, bit_and, bit_or, ◌≡◌, refl, sym, ap, ◌∙◌,
  ◌≢◌, ◌↔◌, ◌⊎◌, inl, inr, Bool, true, false, not, ◌&&◌, ◌||◌, Option, none, some, List, [], ◌∷◌,
  ◌++◌, map, reverse, append-nil, append_assoc, arith, ltb, leb, ◌==◌, if◌then◌else◌, ltb→lt,
  lt→ltb, leb→le, ==_iff, ◌===◌, ===→eq, ===_refl, Bool-cases, Option-cases, ||_cases, ||_right,
  &&_parts, absorb, length, get_elem?, get_or, take, drop, replicate, any, All, length-append,
  length-reverse, length-replicate, length-take, length-drop, take-append-drop, take-append,
  drop-append, take_all, get_elem?-append, get_elem?_below, any-append, All-append, any_mem, Some,
  any_iff, tail_eq,
}
use nsproxy.Rules.Text.{to_lower}

pub data NameResult : Type 0 where
  bad overread : NameResult
  name : ℕ → List ℕ → NameResult

-- One round of the loop ends it, or goes on with new values of `pos`, `out` and the saved offset,
-- which is there once `jumped` is set.
pub data Step : Type 0 where
  stop : NameResult → Step
  next : ℕ → List ℕ → Option ℕ → Step

abbrev pub or_else : Option ℕ → ℕ → Option ℕ
or_else none o = some o
or_else (some s) o = some s

abbrev pub saved_or : Option ℕ → ℕ → ℕ
saved_or none o = o
saved_or (some s) o = s

pub pointer_step : List ℕ → ℕ → ℕ → List ℕ → Option ℕ → Step
pointer_step msg len pos out saved =
    if leb (length msg) (pos + 1) then stop bad else elim (get_elem? msg (pos + 1)) [
      | none ↦ stop overread
      | some low ↦
          let ptr = bit_or (bit_and len 0x3f * 256) low in
          if leb (length msg) ptr then stop bad else next ptr out (or_else saved (pos + 2))
    ]

abbrev pub root_if_empty : List ℕ → List ℕ
root_if_empty [] = b'.' ∷ []
root_if_empty (c ∷ out) = c ∷ out

pub end_step : ℕ → ℕ → List ℕ → Option ℕ → Step
end_step outlen pos out saved =
    if length out == 0 && outlen == 0
    then stop bad
    else (if leb outlen (length (root_if_empty out))
        then stop bad
        else stop (name (saved_or saved pos) (root_if_empty out)))

-- The inner loop: `len` bytes from `pos` on, in lower case.
pub copy_label : List ℕ → ℕ → ℕ → List ℕ → Option (List ℕ)
unfolding to_lower
copy_label msg zero pos out = some out
copy_label msg (suc len) pos out = elim (get_elem? msg pos) [
  | none ↦ none
  | some ch ↦ copy_label msg len (pos + 1) (out ++ (to_lower ch ∷ []))
]

abbrev pub dotted : List ℕ → List ℕ
dotted [] = []
dotted (c ∷ out) = (c ∷ out) ++ (b'.' ∷ [])

pub label_step : List ℕ → ℕ → ℕ → ℕ → List ℕ → Option ℕ → Step
unfolding copy_label
label_step msg outlen len pos out saved =
    if ltb 63 len || ltb (length msg) (pos + len)
    then stop bad
    else (if not (length out == 0) && leb outlen (length out + 1)
        then stop bad
        else (if leb outlen (length (dotted out) + len)
            then stop bad
            else elim (copy_label msg len pos (dotted out)) [
              | none ↦ stop overread
              | some out' ↦ next (pos + len) out' saved
            ]))

pub step : List ℕ → ℕ → ℕ → List ℕ → Option ℕ → Step
unfolding pointer_step end_step label_step
step msg outlen pos out saved =
    if leb (length msg) pos then stop bad else elim (get_elem? msg pos) [
      | none ↦ stop overread
      | some len ↦
          if bit_and len 0xc0 == 0xc0
          then pointer_step msg len pos out saved
          else (if not (bit_and len 0xc0 == 0)
              then stop bad
              else (if len == 0
                  then end_step outlen (pos + 1) out saved
                  else label_step msg outlen len (pos + 1) out saved))
    ]

-- `jumps` counts the rounds left of the 128.
pub name_loop : List ℕ → ℕ → ℕ → ℕ → List ℕ → Option ℕ → NameResult
unfolding step
name_loop msg outlen zero pos out saved = bad
name_loop msg outlen (suc jumps) pos out saved = elim (step msg outlen pos out saved) [
  | stop r ↦ r
  | next pos' out' saved' ↦ name_loop msg outlen jumps pos' out' saved'
]

-- The new offset and the name, without its NUL.
unfoldable pub dns_read_name : List ℕ → ℕ → ℕ → NameResult
unfolding name_loop
dns_read_name msg offset outlen = name_loop msg outlen 128 offset [] none

-- sizeof(name) is SERVNAME_MAXLEN + 1.
unfoldable pub dns_skip_name : List ℕ → ℕ → NameResult
unfolding dns_read_name
dns_skip_name msg offset = dns_read_name msg offset 256
