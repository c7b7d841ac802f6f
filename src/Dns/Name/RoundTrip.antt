-- ===== src/Dns/Name/RoundTrip.antt =====
-- dns_read_name() of src/core.c reads back a name in wire format.
use nsproxy.Common.{
  ℕ, zero, suc, ◌+◌, ◌*◌, ◌≤◌, ◌<◌, bit_and, bit_or, ◌≡◌, refl, sym, ap, ◌∙◌, true, false, not,
  ◌&&◌, Option, none, some, List, [], ◌∷◌, ◌++◌, map, append-nil, append_assoc, arith, leb, ◌==◌,
  if◌then◌else◌, ==_iff, leb-false, ltb-false, ==_false, length, get_elem?, All, length-append,
  get_elem?-append,
}
use nsproxy.Common.Bytes.{all_below, all_below_sound}
use nsproxy.Rules.Text.{to_lower}
use nsproxy.Dns.Name.{
  bad, name, stop, next, or_else, saved_or, pointer_step, root_if_empty, end_step, copy_label,
  dotted, label_step, step, name_loop, dns_read_name,
}

-- RFC 1035: each label behind its length, and a zero byte at the end.
abbrev pub wire : List (List ℕ) → List ℕ
wire [] = 0 ∷ []
wire (l ∷ ls) = length l ∷ (l ++ wire ls)

abbrev pub IsLabel : List ℕ → Type 0
IsLabel l = (0 < length l) × (length l < 64)

abbrev text_label : List ℕ → List ℕ → List ℕ
text_label out l = dotted out ++ map to_lower l

-- The labels in lower case behind `out`, joined by dots.
abbrev text_from : List ℕ → List (List ℕ) → List ℕ
text_from out [] = out
text_from out (l ∷ ls) = text_from (text_label out l) ls

-- The text of a name; that of the root is a dot.
abbrev pub text_of : List (List ℕ) → List ℕ
text_of ls = root_if_empty (text_from [] ls)

pub get_at :
    (msg pre : List ℕ) (b : ℕ) (rest : List ℕ) (pos : ℕ)
    → msg ≡ pre ++ (b ∷ rest)
    → pos ≡ length pre
    → get_elem? msg pos ≡ some b
get_at msg pre b rest pos e h = rw (e, h) (get_elem?-append pre b rest)

copy_label-wire :
    (msg pre l rest : List ℕ) (pos : ℕ) (out : List ℕ)
    → msg ≡ pre ++ (l ++ rest)
    → pos ≡ length pre
    → copy_label msg (length l) pos out ≡ some (out ++ map to_lower l)
unfolding copy_label
copy_label-wire msg pre [] rest pos out e h = rw append-nil
copy_label-wire msg pre (c ∷ l) rest pos out e h =
    rw (get_at msg pre c (l ++ rest) pos e h, copy_label)
      (copy_label-wire msg (pre ++ (c ∷ [])) l rest (pos + 1) (out ++ (to_lower c ∷ []))
          (e ∙ sym (append_assoc pre (c ∷ []) (l ++ rest)))
          (omega (arith, h, length-append pre (c ∷ [])))
        ∙ ap some (append_assoc out (to_lower c ∷ []) (map to_lower l)))

no_pointer_table : all_below 64 (λ x. bit_and x 0xc0 == 0) ≡ true
unfolding all_below
no_pointer_table = refl

no_pointer : (len : ℕ) → len < 64 → bit_and len 0xc0 ≡ 0
no_pointer len h =
    (==_iff _ 0).0 (all_below_sound 64 (λ x. bit_and x 0xc0 == 0) len no_pointer_table h)

length-map_lower : (l : List ℕ) → length (map to_lower l) ≡ length l
length-map_lower [] = refl
length-map_lower (c ∷ l) = ap suc (length-map_lower l)

length-text_label : (out l : List ℕ) → length (text_label out l) ≡ length (dotted out) + length l
length-text_label out l =
    length-append (dotted out) (map to_lower l) ∙ omega (arith, length-map_lower l)

length-dotted_le : (out : List ℕ) → length out ≤ length (dotted out)
length-dotted_le [] = omega arith
length-dotted_le (c ∷ out) = omega (arith, length-append (c ∷ out) (b'.' ∷ []))

length-dotted_ne : (out : List ℕ) → (length out == 0) ≡ false → length (dotted out) ≡ length out + 1
length-dotted_ne [] h = cc
length-dotted_ne (c ∷ out) h = length-append (c ∷ out) (b'.' ∷ [])

text_from-le : (ls : List (List ℕ)) (out : List ℕ) → length out ≤ length (text_from out ls)
text_from-le [] out = omega arith
text_from-le (l ∷ ls) out =
    omega (arith, text_from-le ls (text_label out l), length-text_label out l, length-dotted_le out)

-- One label.
step-wire :
    (msg pre l rest : List ℕ) (outlen pos : ℕ) (out : List ℕ) (saved : Option ℕ)
    → msg ≡ pre ++ (length l ∷ (l ++ rest))
    → pos ≡ length pre
    → IsLabel l
    → length (text_label out l) < outlen
    → step msg outlen pos out saved ≡ next (pos + 1 + length l) (text_label out l) saved
unfolding step label_step
step-wire msg pre l rest outlen pos out saved e h ok fits =
    let len : length msg ≡ length pre + suc (length l + length rest) =
      ap length e
      ∙ length-append pre (length l ∷ (l ++ rest))
      ∙ omega (arith, length-append l rest) in
    let read = get_at msg pre (length l) (l ++ rest) pos e h in
    let copied =
      copy_label-wire msg (pre ++ (length l ∷ [])) l rest (pos + 1) (dotted out)
        (e ∙ sym (append_assoc pre (length l ∷ []) (l ++ rest)))
        (omega (arith, h, length-append pre (length l ∷ []))) in
    let size = length-text_label out l in
    rw (
      leb-false (length msg) pos (omega (arith, len)),
      read,
      no_pointer (length l) ok.1,
      ==_false (length l) 0 (omega arith),
      ltb-false 63 (length l) (omega arith),
      ltb-false (length msg) (pos + 1 + length l) (omega (arith, len)),
      dots out outlen (omega (arith, size)),
      leb-false outlen (length (dotted out) + length l) (omega (arith, size)),
      copied,
    )
  where
    dots :
        (out : List ℕ) (n : ℕ)
        → length (dotted out) < n
        → (not (length out == 0) && leb n (length out + 1)) ≡ false
    dots [] n h = refl
    dots (c ∷ out) n h = rw (
      ==_false (length (c ∷ out)) 0 (ground arith),
      leb-false n (length (c ∷ out) + 1) (omega (arith, length-append (c ∷ out) (b'.' ∷ []))),
    )

-- The zero byte.
step-end :
    (msg pre rest : List ℕ) (outlen pos : ℕ) (out : List ℕ) (saved : Option ℕ)
    → msg ≡ pre ++ (0 ∷ rest)
    → pos ≡ length pre
    → length out < outlen
    → 1 < outlen
    → step msg outlen pos out saved ≡ stop (name (saved_or saved (pos + 1)) (root_if_empty out))
unfolding step end_step
step-end msg pre rest outlen pos out saved e h fits room =
    let len : length msg ≡ length pre + suc (length rest) =
      ap length e ∙ length-append pre (0 ∷ rest) in
    rw (leb-false (length msg) pos (omega (arith, len)), get_at msg pre 0 rest pos e h)
      (finish out fits)
  where
    finish :
        (out : List ℕ)
        → length out < outlen
        → (if length out == 0 && outlen == 0
            then stop bad
            else (if leb outlen (length (root_if_empty out))
                then stop bad
                else stop (name (saved_or saved (pos + 1)) (root_if_empty out))))
          ≡ stop (name (saved_or saved (pos + 1)) (root_if_empty out))
    finish [] fits = rw (==_false outlen 0 (ground arith), leb-false outlen 1 room)
    finish (c ∷ out) fits =
        rw (==_false (length (c ∷ out)) 0 (ground arith), leb-false outlen (length (c ∷ out)) fits)

pub name_loop-wire :
    (ls : List (List ℕ)) (msg pre rest : List ℕ) (outlen jumps pos : ℕ) (out : List ℕ)
    (saved : Option ℕ)
    → msg ≡ pre ++ (wire ls ++ rest)
    → pos ≡ length pre
    → All IsLabel ls
    → length (text_from out ls) < outlen
    → 1 < outlen
    → length ls < jumps
    → name_loop msg outlen jumps pos out saved
      ≡ name (saved_or saved (pos + length (wire ls))) (root_if_empty (text_from out ls))
unfolding name_loop
name_loop-wire ls msg pre rest outlen zero pos out saved e h ok fits room enough = elim enough [ ]
name_loop-wire [] msg pre rest outlen (suc jumps) pos out saved e h ok fits room enough =
    rw (step-end msg pre rest outlen pos out saved e h fits room, name_loop)
name_loop-wire (l ∷ ls) msg pre rest outlen (suc jumps) pos out saved e h ok fits room enough =
    let e' : msg ≡ pre ++ (length l ∷ (l ++ (wire ls ++ rest))) =
      e ∙ ap (λ t. pre ++ (length l ∷ t)) (append_assoc l (wire ls) rest) in
    let e'' : msg ≡ (pre ++ (length l ∷ l)) ++ (wire ls ++ rest) =
      e' ∙ sym (append_assoc pre (length l ∷ l) (wire ls ++ rest)) in
    let ends : pos + 1 + length l + length (wire ls) ≡ pos + length (wire (l ∷ ls)) =
      omega (arith, length-append l (wire ls)) in
    rw
      (
        step-wire msg pre l (wire ls ++ rest) outlen pos out saved e' h ok.0
            (omega (arith, text_from-le ls (text_label out l), fits)),
        name_loop,
      )
      (name_loop-wire ls msg (pre ++ (length l ∷ l)) rest outlen jumps (pos + 1 + length l)
          (text_label out l) saved e'' (omega (arith, h, length-append pre (length l ∷ l))) ok.1
          fits room (omega arith)
        ∙ ap (λ o. name (saved_or saved o) (root_if_empty (text_from out (l ∷ ls)))) ends)

-- Reading back a name in wire format, with anything in front of it and behind it: the result is the
-- labels in lower case joined by dots, and the offset behind the zero byte. The labels have 1 to 63
-- bytes and are fewer than 128, and the text fits the buffer.
pub dns_read_name-wire :
    (ls : List (List ℕ)) (pre rest : List ℕ) (outlen : ℕ)
    → All IsLabel ls
    → length (text_of ls) < outlen
    → 1 < outlen
    → length ls < 128
    → dns_read_name (pre ++ (wire ls ++ rest)) (length pre) outlen
      ≡ name (length pre + length (wire ls)) (text_of ls)
unfolding dns_read_name
dns_read_name-wire ls pre rest outlen ok fits room few =
    name_loop-wire ls _ pre rest outlen 128 (length pre) [] none refl refl ok
      (omega (arith, shorter (text_from [] ls), fits)) room few
  where
    shorter : (t : List ℕ) → length t ≤ length (root_if_empty t)
    shorter [] = omega arith
    shorter (c ∷ t) = omega arith

step-pointer :
    (msg front back : List ℕ) (high low outlen ptr : ℕ) (out : List ℕ) (saved : Option ℕ)
    → msg ≡ front ++ (high ∷ low ∷ back)
    → bit_and high 0xc0 ≡ 0xc0
    → bit_or (bit_and high 0x3f * 256) low ≡ ptr
    → ptr < length msg
    → step msg outlen (length front) out saved ≡ next ptr out (or_else saved (length front + 2))
unfolding step pointer_step
step-pointer msg front back high low outlen ptr out saved f top target inside =
    let len : length msg ≡ length front + suc (suc (length back)) =
      ap length f ∙ length-append front (high ∷ low ∷ back) in
    let first = get_at msg front high (low ∷ back) (length front) f refl in
    let second =
      get_at msg (front ++ (high ∷ [])) low back (length front + 1)
        (f ∙ sym (append_assoc front (high ∷ []) (low ∷ back)))
        (omega (arith, length-append front (high ∷ []))) in
    rw (
      leb-false (length msg) (length front) (omega (arith, len)),
      first,
      top,
      leb-false (length msg) (length front + 1) (omega (arith, len)),
      second,
      target,
      leb-false (length msg) ptr inside,
    )

name_loop-pointer :
    (ls : List (List ℕ)) (msg pre rest front back : List ℕ) (high low outlen jumps : ℕ)
    → msg ≡ pre ++ (wire ls ++ rest)
    → msg ≡ front ++ (high ∷ low ∷ back)
    → bit_and high 0xc0 ≡ 0xc0
    → bit_or (bit_and high 0x3f * 256) low ≡ length pre
    → All IsLabel ls
    → length (text_from [] ls) < outlen
    → 1 < outlen
    → length ls < jumps
    → name_loop msg outlen (suc jumps) (length front) [] none ≡ name (length front + 2) (text_of ls)
unfolding name_loop
name_loop-pointer ls msg pre rest front back high low outlen jumps e f top target ok fits room few =
    rw
      (
        step-pointer msg front back high low outlen (length pre) [] none f top target
            (omega (arith, ap length e, length-append pre (wire ls ++ rest), positive ls)),
        name_loop,
      )
      (name_loop-wire ls msg pre rest outlen jumps (length pre) [] (some (length front + 2)) e refl
        ok fits room few)
  where
    positive : (ls : List (List ℕ)) → 0 < length (wire ls ++ rest)
    positive [] = omega arith
    positive (l ∷ ls) = omega arith

shorter : (t : List ℕ) → length t ≤ length (root_if_empty t)
shorter [] = omega arith
shorter (c ∷ t) = omega arith

-- A compression pointer to a name in wire format, below offset 16384, of fewer than 127 labels of 1 to
-- 63 bytes each, whose text fits in the buffer with its NUL: the text is that of the name, and the new
-- offset is behind the pointer.
pub dns_read_name-pointer :
    (ls : List (List ℕ)) (msg pre rest front back : List ℕ) (high low outlen : ℕ)
    → msg ≡ pre ++ (wire ls ++ rest)
    → msg ≡ front ++ (high ∷ low ∷ back)
    → bit_and high 0xc0 ≡ 0xc0
    → bit_or (bit_and high 0x3f * 256) low ≡ length pre
    → All IsLabel ls
    → length (text_of ls) < outlen
    → 1 < outlen
    → length ls < 127
    → dns_read_name msg (length front) outlen ≡ name (length front + 2) (text_of ls)
unfolding dns_read_name
dns_read_name-pointer ls msg pre rest front back high low outlen e f top target ok fits room few =
    name_loop-pointer ls msg pre rest front back high low outlen 127 e f top target ok
      (omega (arith, shorter (text_from [] ls), fits)) room few
