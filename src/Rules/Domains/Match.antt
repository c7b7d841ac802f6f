-- ===== src/Rules/Domains/Match.antt =====
-- Which domains a rule covers: nspconf_domain_matches() of src/main.c.
use nsproxy.Common.{
  ℕ, zero, suc, ◌+◌, ◌-◌, ◌<◌, ◌≡◌, refl, sym, ap, ◌∙◌, ◌≢◌, ◌↔◌, ◌⊎◌, inl, inr, true, List, [],
  ◌∷◌, ◌++◌, arith, leb, ◌==◌, ==_iff, leb-false, ◌===◌, ===→eq, ===_refl, Bool-cases, ||_cases,
  ||_right, &&_parts, length, get_or, take, drop, length-append, take-append-drop, Some, any_iff,
  tail_eq,
}
use mathlib.Core.Path.{ap₂, subst}
use nsproxy.Rules.Conf.{NspConf, servname_maxlen}
use nsproxy.Rules.Text.{normalize_domain}
use nsproxy.Rules.Domains.{
  dot_suffix, plain_matches, star_matches, rule_matches, nspconf_domain_matches,
}

-- `domain` is a name under `parent`.
abbrev pub Under : List ℕ → List ℕ → Type 0
Under domain parent = (labels : List ℕ) × (domain ≡ labels ++ (b'.' ∷ parent))

abbrev pub IsPlain : List ℕ → Type 0
IsPlain [] = Unit {0}
IsPlain (c ∷ []) = c ≢ b'='
IsPlain (c ∷ d ∷ rule) = (c ≢ b'=') × ((c ≢ b'*') ⊎ (d ≢ b'.'))

-- What the README promises of a rule: `=name` covers that name, `*.name` covers the names under it,
-- and any other rule covers itself and the names under it.
pub data Covers (domain rule : List ℕ) : Type 0 where
  exact : rule ≡ b'=' ∷ domain → Covers domain rule
  below : (name : List ℕ) → rule ≡ b'*' ∷ b'.' ∷ name → Under domain name → Covers domain rule
  itself : IsPlain rule → rule ≡ domain → Covers domain rule
  under : IsPlain rule → Under domain rule → Covers domain rule

drop_step : (n : ℕ) (xs : List ℕ) → n < length xs → drop n xs ≡ get_or xs n 0 ∷ drop (suc n) xs
drop_step zero [] h = absurd (omega arith)
drop_step (suc n) [] h = absurd (omega arith)
drop_step zero (x ∷ xs) h = refl
drop_step (suc n) (x ∷ xs) h = drop_step n xs (omega arith)

get_or-append : (xs : List ℕ) (y : ℕ) (ys : List ℕ) → get_or (xs ++ (y ∷ ys)) (length xs) 0 ≡ y
get_or-append [] y ys = refl
get_or-append (x ∷ xs) y ys = get_or-append xs y ys

drop-suc-append : (xs : List ℕ) (y : ℕ) (ys : List ℕ) → drop (suc (length xs)) (xs ++ (y ∷ ys)) ≡ ys
drop-suc-append [] y ys = refl
drop-suc-append (x ∷ xs) y ys = drop-suc-append xs y ys

dot_suffix-Under : (d s : List ℕ) → dot_suffix d s ≡ true → Under d s
unfolding dot_suffix
dot_suffix-Under d s h = elim (Bool-cases (leb (length d) (length s))) [
  | inl short ↦ cc (h, short)
  | inr long ↦
      let n = length d - length s - 1 in
      let n_suc : length d - length s ≡ suc n = ground arith in
      let parts = &&_parts _ _ (rw long at h) in
      let at_dot : get_or d n 0 ≡ b'.' = (==_iff _ _).0 parts.1 in
      let tail : drop (suc n) d ≡ s = rw n_suc at (===→eq _ _ parts.0) in
      (
        take n d,
        sym (take-append-drop n d)
            ∙ ap (◌++◌ (take n d)) (drop_step n d (ground arith) ∙ ap₂ ◌∷◌ at_dot tail),
      )
]

Under-dot_suffix : (d s : List ℕ) → Under d s → dot_suffix d s ≡ true
unfolding dot_suffix
Under-dot_suffix d s (labels, e) =
    let len : length d ≡ length labels + suc (length s) =
      ap length e ∙ length-append labels (b'.' ∷ s) in
    let one : length d - length s ≡ suc (length labels) = omega (arith, len) in
    let two : suc (length labels) - 1 ≡ length labels = omega arith in
    rw (
      leb-false (length d) (length s) (omega (arith, len)),
      one,
      two,
      e,
      drop-suc-append labels b'.' s,
      get_or-append labels b'.' s,
      ===_refl s,
    )

not-IsPlain_equals : (r : List ℕ) → ¬ IsPlain (b'=' ∷ r)
not-IsPlain_equals [] p = p refl
not-IsPlain_equals (c ∷ r) p = p.0 refl

not-IsPlain_star : (r : List ℕ) → ¬ IsPlain (b'*' ∷ b'.' ∷ r)
not-IsPlain_star r (_, inl p) = p refl
not-IsPlain_star r (_, inr p) = p refl

-- The three kinds of rules, and what the loop computes for each.
data Shape (d r : List ℕ) : Type 0 where
  equals : (name : List ℕ) → r ≡ b'=' ∷ name → rule_matches d r ≡ d === name → Shape d r
  star : (name : List ℕ) → r ≡ b'*' ∷ b'.' ∷ name → rule_matches d r ≡ dot_suffix d name → Shape d r
  plain : IsPlain r → rule_matches d r ≡ plain_matches d r → Shape d r

shape : (d r : List ℕ) → Shape d r
unfolding rule_matches star_matches
shape d [] = plain tt refl
shape d (c ∷ []) = elim (Bool-cases (c == b'=')) [
  | inl e ↦ equals [] (ground arith) (rw e)
  | inr e ↦ plain (ground arith) (ground arith)
]
shape d (c ∷ x ∷ r) = elim (Bool-cases (c == b'=')) [
  | inl e ↦ equals (x ∷ r) (ground arith) (rw e)
  | inr e ↦ elim (Bool-cases (c == b'*')) [
    | inr f ↦ plain (ground arith, inl (ground arith)) (rw (e, f))
    | inl f ↦ elim (Bool-cases (x == b'.')) [
      | inl g ↦ star r (ground arith) (rw (e, f, g))
      | inr g ↦ plain (ground arith, inr (ground arith)) (ground arith)
    ]
  ]
]

matches-Covers : (d r : List ℕ) → Shape d r → rule_matches d r ≡ true → Covers d r
unfolding plain_matches
matches-Covers d r (equals name e m) h = exact (e ∙ ap (◌∷◌ b'=') (sym (===→eq d name (sym m ∙ h))))
matches-Covers d r (star name e m) h = below name e (dot_suffix-Under d name (sym m ∙ h))
matches-Covers d r (plain p m) h = elim (||_cases (d === r) (dot_suffix d r) (sym m ∙ h)) [
  | inl e ↦ itself p (sym (===→eq d r e))
  | inr e ↦ under p (dot_suffix-Under d r e)
]

Covers-matches : (d r : List ℕ) → Shape d r → Covers d r → rule_matches d r ≡ true
unfolding plain_matches
Covers-matches d r (equals name e m) (exact f) = m ∙ rw (tail_eq (sym f ∙ e)) (===_refl name)
Covers-matches d r (equals name e m) (below n f u) = cc
Covers-matches d r (equals name e m) (itself p f) =
    absurd (not-IsPlain_equals name (subst IsPlain e p))
Covers-matches d r (equals name e m) (under p u) =
    absurd (not-IsPlain_equals name (subst IsPlain e p))
Covers-matches d r (star name e m) (exact f) = cc
Covers-matches d r (star name e m) (below n f u) =
    m ∙ Under-dot_suffix d name (subst (Under d) (tail_eq (tail_eq (sym f ∙ e))) u)
Covers-matches d r (star name e m) (itself p f) = absurd (not-IsPlain_star name (subst IsPlain e p))
Covers-matches d r (star name e m) (under p u) = absurd (not-IsPlain_star name (subst IsPlain e p))
Covers-matches d r (plain p m) (exact f) = absurd (not-IsPlain_equals d (subst IsPlain f p))
Covers-matches d r (plain p m) (below n f u) = absurd (not-IsPlain_star n (subst IsPlain f p))
Covers-matches d r (plain p m) (itself q f) = m ∙ rw (f, ===_refl d)
Covers-matches d r (plain p m) (under q u) = m ∙ ||_right _ _ (Under-dot_suffix d r u)

-- A rule matches a normalised domain exactly when it covers it.
pub rule_matches_iff : (d r : List ℕ) → (rule_matches d r ≡ true) ↔ Covers d r
rule_matches_iff d r = (matches-Covers d r (shape d r), Covers-matches d r (shape d r))

-- The query is a match exactly when some rule covers the domain in lower case, without the dots at
-- its end, and cut to 255 bytes before that.
pub nspconf_domain_matches_iff :
    (conf : NspConf) (domain : List ℕ)
    → (nspconf_domain_matches conf domain ≡ true)
      ↔ Some (Covers (normalize_domain (take servname_maxlen domain))) conf.direct_domains
unfolding nspconf_domain_matches
nspconf_domain_matches_iff conf domain =
    any_iff _ _ (rule_matches_iff (normalize_domain (take servname_maxlen domain)))
      conf.direct_domains
