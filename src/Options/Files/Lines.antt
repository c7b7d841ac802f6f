-- ===== src/Options/Files/Lines.antt =====
-- One line of a rule file of src/main.c: what fgets() gives, and the item in it.
use nsproxy.Common.{
  ℕ, zero, suc, ◌≤◌, ◌<◌, ◌≡◌, refl, ap, ◌∙◌, inl, inr, true, false, Option, none, some, List, [],
  ◌∷◌, ◌++◌, reverse, arith, ◌==◌, if◌then◌else◌, lt→ltb, Bool-cases, if_cases, length, any-append,
}
use mathlib.Core.List.{reverse-append}
use nsproxy.Rules.Conf.{NspConf}
use nsproxy.Rules.Text.{trim_ascii_space, skip_space, is_space}
use nsproxy.Socks.Codec.{c_string}
use nsproxy.Options.{Result, further, is_nil, strchr, has_byte}
use nsproxy.Options.Text.{||_false}
use nsproxy.Options.Files.{line_size, fgets, before_hash, item_of, add_text, add_line}

fgets_shorter : (n : ℕ) (s : List ℕ) → length (fgets n s).1 ≤ length s
unfolding fgets
fgets_shorter zero s = omega arith
fgets_shorter (suc n) [] = omega arith
fgets_shorter (suc n) (b ∷ s) =
    if_cases (λ (r : List ℕ × List ℕ). length r.1 ≤ suc (length s)) (b == 10) _ _ (λ _. omega arith)
      (λ _. omega (arith, fgets_shorter n s))

pub fgets_progress : (n b : ℕ) (s : List ℕ) → length (fgets (suc n) (b ∷ s)).1 ≤ length s
unfolding fgets
fgets_progress n b s =
    if_cases (λ (r : List ℕ × List ℕ). length r.1 ≤ length s) (b == 10) _ _ (λ _. omega arith)
      (λ _. fgets_shorter n s)

skip_space-snoc :
    (c : ℕ) (s : List ℕ)
    → is_space c ≡ true
    → skip_space (s ++ (c ∷ [])) ≡ (if is_nil (skip_space s) then [] else skip_space s ++ (c ∷ []))
unfolding skip_space
skip_space-snoc c [] h = rw h refl
skip_space-snoc c (b ∷ s) h = elim (Bool-cases (is_space b)) [
  | inl e ↦ rw e (skip_space-snoc c s h)
  | inr e ↦ rw e refl
]

-- A space at the end is trimmed.
trim-snoc :
    (c : ℕ) (s : List ℕ) → is_space c ≡ true → trim_ascii_space (s ++ (c ∷ [])) ≡ trim_ascii_space s
unfolding trim_ascii_space skip_space
trim-snoc c s h = rw (skip_space-snoc c s h) (by_rest (skip_space s))
  where
    by_rest :
        (t : List ℕ)
        → reverse (skip_space (reverse (if is_nil t then [] else t ++ (c ∷ []))))
          ≡ reverse (skip_space (reverse t))
    by_rest [] = refl
    by_rest (b ∷ t) =
        ap (λ (u : List ℕ). reverse (skip_space u)) (reverse-append (b ∷ t) (c ∷ [])) ∙ rw h refl

abbrev tail_longer : ℕ → Option (List ℕ × List ℕ) → Option (List ℕ × List ℕ)
tail_longer d none = none
tail_longer d (some (t, u)) = some (t, u ++ (d ∷ []))

further-tail_longer :
    (b d : ℕ) (o : Option (List ℕ × List ℕ))
    → further b (tail_longer d o) ≡ tail_longer d (further b o)
further-tail_longer b d none = refl
further-tail_longer b d (some p) = refl

strchr-snoc :
    (c d : ℕ) (s : List ℕ)
    → (d == c) ≡ false
    → strchr c (s ++ (d ∷ [])) ≡ tail_longer d (strchr c s)
unfolding strchr
strchr-snoc c d [] h = rw h refl
strchr-snoc c d (b ∷ s) h = elim (Bool-cases (b == c)) [
  | inl e ↦ rw e refl
  | inr e ↦ rw (e, strchr-snoc c d s h) (further-tail_longer b d (strchr c s))
]

-- The newline of a line is not part of its item.
item_of-snoc : (s : List ℕ) → item_of (s ++ (10 ∷ [])) ≡ item_of s
unfolding item_of is_space
item_of-snoc s = rw (strchr-snoc b'#' 10 s refl) (by_option (strchr b'#' s))
  where
    by_option :
        (o : Option (List ℕ × List ℕ))
        → trim_ascii_space (before_hash (s ++ (10 ∷ [])) (tail_longer 10 o))
          ≡ trim_ascii_space (before_hash s o)
    by_option none = trim-snoc 10 s refl
    by_option (some p) = refl

-- A line of a text file: short enough, without a newline or a NUL.
pub record IsLine (s : List ℕ) : Type 0 where
  pub short : length s < line_size
  pub one_line : has_byte 10 s ≡ false
  pub text : has_byte 0 s ≡ false

pub fgets-newline :
    (n : ℕ) (s t : List ℕ)
    → length s < n
    → has_byte 10 s ≡ false
    → fgets n (s ++ (10 ∷ t)) ≡ (s ++ (10 ∷ []), t)
unfolding fgets
fgets-newline zero s t h e = absurd (omega (arith, h))
fgets-newline (suc n) [] t h e = refl
fgets-newline (suc n) (b ∷ s) t h e =
    let p = ||_false (b == 10) (has_byte 10 s) e in
    rw (p.0, fgets-newline n s t (omega (arith, h)) p.1) refl

pub fgets-last : (n : ℕ) (s : List ℕ) → length s < n → has_byte 10 s ≡ false → fgets n s ≡ (s, [])
unfolding fgets
fgets-last zero s h e = absurd (omega (arith, h))
fgets-last (suc n) [] h e = refl
fgets-last (suc n) (b ∷ s) h e =
    let p = ||_false (b == 10) (has_byte 10 s) e in
    rw (p.0, fgets-last n s (omega (arith, h)) p.1) refl

pub c_string-plain : (s : List ℕ) → has_byte 0 s ≡ false → c_string s ≡ s
unfolding c_string
c_string-plain [] h = refl
c_string-plain (b ∷ s) h =
    let p = ||_false (b == 0) (has_byte 0 s) h in rw (p.0) (ap (◌∷◌ b) (c_string-plain s p.1))

pub add_line-newline :
    (add : NspConf → List ℕ → Result NspConf) (conf : NspConf) (s : List ℕ)
    → IsLine s
    → add_line add conf (s ++ (10 ∷ [])) ≡ add_text add conf s
unfolding add_line add_text
add_line-newline add conf s h =
    let whole : has_byte 0 (s ++ (10 ∷ [])) ≡ false =
      any-append (λ b. b == 0) s (10 ∷ []) ∙ rw (h.text) refl in
    let ends : has_byte 10 (s ++ (10 ∷ [])) ≡ true =
      any-append (λ b. b == 10) s (10 ∷ []) ∙ rw (h.one_line) refl in
    rw (c_string-plain (s ++ (10 ∷ [])) whole, ends, item_of-snoc s) refl

pub add_line-last :
    (add : NspConf → List ℕ → Result NspConf) (conf : NspConf) (s : List ℕ)
    → IsLine s
    → add_line add conf s ≡ add_text add conf s
unfolding add_line
add_line-last add conf s h =
    rw (c_string-plain s h.text, h.one_line, lt→ltb (length s) line_size h.short) refl
