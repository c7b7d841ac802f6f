-- ===== src/Options/Text.antt =====
-- The functions of the C library on the strings that the options are made of.
use nsproxy.Common.{
  ℕ, ◌+◌, ◌-◌, ◌*◌, ◌^◌, ◌≤◌, ◌<◌, ◌≡◌, refl, ap, Bool, true, false, ◌||◌, Option, none, some, List,
  [], ◌∷◌, ◌++◌, arith, leb, ◌==◌, lt→ltb, leb→le, ==_iff, &&_parts, if_cases, ==_false, All,
}
use nsproxy.Rules.Text.{is_space, skip_space}
use nsproxy.Options.{strchr, further, has_byte, pos, is_decimal, digits_from, strtol}

abbrev pub IsDigit : ℕ → Type 0
IsDigit c = is_decimal c ≡ true

-- The number that a row of digits writes.
abbrev pub decimal : ℕ → List ℕ → ℕ
decimal n [] = n
decimal n (c ∷ s) = decimal (n * 10 + (c - b'0')) s

pub digits_from-decimal : (n : ℕ) (s : List ℕ) → All IsDigit s → digits_from n s ≡ (decimal n s, [])
digits_from-decimal n [] h = refl
digits_from-decimal n (c ∷ s) (d, h) = rw d (digits_from-decimal (n * 10 + (c - b'0')) s h)

digit_bounds : (c : ℕ) → is_decimal c ≡ true → (48 ≤ c) × (c ≤ 57)
digit_bounds c h = let p = &&_parts (leb b'0' c) (leb c b'9') h in (leb→le _ _ p.0, leb→le _ _ p.1)

digit_space : (c : ℕ) → is_decimal c ≡ true → is_space c ≡ false
unfolding is_space
digit_space c h = let b = digit_bounds c h in ground (arith, b.0, b.1)

-- A row of digits that is within a long reads as its number, to the end.
pub strtol-decimal :
    (c : ℕ) (s : List ℕ)
    → All IsDigit (c ∷ s)
    → decimal 0 (c ∷ s) < 2 ^ 63
    → strtol (c ∷ s) ≡ (pos (decimal 0 (c ∷ s)), [])
unfolding strtol skip_space
strtol-decimal c s h small =
    let b = digit_bounds c h.0 in
    let minus : (c == b'-') ≡ false = ==_false c b'-' (λ e. omega (arith, b.0, e)) in
    let plus : (c == b'+') ≡ false = ==_false c b'+' (λ e. omega (arith, b.0, e)) in
    let all = digits_from-decimal (0 * 10 + (c - b'0')) s h.1 in
    let within = lt→ltb (decimal 0 (c ∷ s)) (2 ^ 63) small in
    rw (digit_space c h.0, minus, plus, h.0, all, within) refl

pub ||_false : (a b : Bool) → (a || b) ≡ false → (a ≡ false) × (b ≡ false)
||_false true b h = absurd (cc (h))
||_false false b h = (refl, h)

-- The first `c`, where the string is written with it.
pub strchr-append :
    (c : ℕ) (s t : List ℕ) → has_byte c s ≡ false → strchr c (s ++ (c ∷ t)) ≡ some (s, t)
unfolding strchr
strchr-append c [] t h = rw ((==_iff c c).1 refl) refl
strchr-append c (b ∷ s) t h =
    let p = ||_false (b == c) (has_byte c s) h in rw (p.0, strchr-append c s t p.1) refl

pub strchr-none : (c : ℕ) (s : List ℕ) → has_byte c s ≡ false → strchr c s ≡ none
unfolding strchr
strchr-none c [] h = refl
strchr-none c (b ∷ s) h =
    let p = ||_false (b == c) (has_byte c s) h in rw (p.0, strchr-none c s p.1) refl

-- What strchr() answers: there is no `c`, or the string is cut at the first.
abbrev pub CutAt : ℕ → List ℕ → Option (List ℕ × List ℕ) → Type 0
CutAt c s none = has_byte c s ≡ false
CutAt c s (some (a, b)) = (s ≡ a ++ (c ∷ b)) × (has_byte c a ≡ false)

cut_later :
    (c d : ℕ) (s : List ℕ) (o : Option (List ℕ × List ℕ))
    → (d == c) ≡ false
    → CutAt c s o
    → CutAt c (d ∷ s) (further d o)
cut_later c d s none e h = rw e h
cut_later c d s (some (a, b)) e (g, h) = (ap (◌∷◌ d) g, rw e h)

pub strchr-CutAt : (c : ℕ) (s : List ℕ) → CutAt c s (strchr c s)
unfolding strchr
strchr-CutAt c [] = refl
strchr-CutAt c (d ∷ s) =
    if_cases (CutAt c (d ∷ s)) (d == c) (some ([], s)) (further d (strchr c s))
      (λ e. (ap (λ (x : ℕ). x ∷ s) ((==_iff d c).0 e), refl))
      (λ e. cut_later c d s (strchr c s) e (strchr-CutAt c s))
