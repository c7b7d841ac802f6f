-- ===== src/Rules/Text/Laws.antt =====
-- What trim_ascii_space() and normalize_domain() of src/main.c return.
use nsproxy.Common.{
  ℕ, ◌≡◌, refl, sym, ap, ◌∙◌, ◌≢◌, inl, inr, Bool, true, false, List, [], ◌∷◌, ◌++◌, map, reverse,
  arith, ◌==◌, if◌then◌else◌, Bool-cases, All, All-append,
}
use mathlib.Core.List.{reverse-reverse, reverse-append, reverse-cons, map-append}
use nsproxy.Rules.Text.{
  is_space, skip_space, trim_ascii_space, to_lower, lower_domain, skip_dots, normalize_domain,
}

abbrev pub IsSpace : ℕ → Type 0
IsSpace c = is_space c ≡ true

abbrev pub StartsClean : (ℕ → Bool) → List ℕ → Type 0
StartsClean p [] = Unit {0}
StartsClean p (c ∷ s) = p c ≡ false

abbrev pub skipped : List ℕ → List ℕ
skipped [] = []
skipped (c ∷ s) = if is_space c then c ∷ skipped s else []

skip_space_split :
    (s : List ℕ)
    → (skipped s ++ skip_space s ≡ s)
      × All IsSpace (skipped s)
      × StartsClean is_space (skip_space s)
unfolding skip_space
skip_space_split [] = (refl, tt, tt)
skip_space_split (c ∷ s) = elim (Bool-cases (is_space c)) [
  | inl e ↦ let (a, b, d) = skip_space_split s in rw e (ap (◌∷◌ c) a, (e, b), d)
  | inr e ↦ rw e (refl, tt, e)
]

All-reverse : (xs : List ℕ) → All IsSpace xs → All IsSpace (reverse xs)
All-reverse [] h = tt
All-reverse (x ∷ xs) h =
    rw (reverse-cons x xs) (All-append IsSpace (reverse xs) (x ∷ []) (All-reverse xs h.1) (h.0, tt))

-- What is left behind the spaces in front keeps no space there when spaces at its end go.
front_kept : (p : ℕ → Bool) (xs ys : List ℕ) → StartsClean p (xs ++ ys) → StartsClean p xs
front_kept p [] ys h = tt
front_kept p (x ∷ xs) ys h = h

-- A string is the trimmed string between two runs of spaces, and the trimmed string has a space
-- neither at its front nor at its end.
pub trim_ascii_space-split :
    (s : List ℕ)
    → (pre : List ℕ) × (post : List ℕ) × (s ≡ pre ++ (trim_ascii_space s ++ post))
      × All IsSpace pre
      × All IsSpace post
      × StartsClean is_space (trim_ascii_space s)
      × StartsClean is_space (reverse (trim_ascii_space s))
unfolding trim_ascii_space
trim_ascii_space-split s =
    let (a, b, c) = skip_space_split s in
    let mid = skip_space s in
    let (d, e, f) = skip_space_split (reverse mid) in
    let joined : reverse (skip_space (reverse mid)) ++ reverse (skipped (reverse mid)) ≡ mid =
      sym (reverse-append (skipped (reverse mid)) (skip_space (reverse mid)))
      ∙ ap reverse d
      ∙ reverse-reverse mid in
    (
      skipped s,
      reverse (skipped (reverse mid)),
      sym (ap (◌++◌ (skipped s)) joined ∙ a),
      b,
      All-reverse (skipped (reverse mid)) e,
      front_kept is_space (reverse (skip_space (reverse mid))) (reverse (skipped (reverse mid)))
          (rw joined c),
      rw reverse-reverse f,
    )

to_lower_twice : (c : ℕ) → to_lower (to_lower c) ≡ to_lower c
unfolding to_lower
to_lower_twice c = ground arith

map_lower_twice : (s : List ℕ) → map to_lower (map to_lower s) ≡ map to_lower s
map_lower_twice [] = refl
map_lower_twice (c ∷ s) = rw (to_lower_twice c, map_lower_twice s)

to_lower-ne_equals : (c : ℕ) → c ≢ b'=' → to_lower c ≢ b'='
unfolding to_lower
to_lower-ne_equals c h e = ground arith

to_lower_equals : to_lower b'=' ≡ b'='
unfolding to_lower
to_lower_equals = refl

-- The leading `=` needs no case: the loop is `to_lower` on every byte.
pub lower_domain-map : (s : List ℕ) → lower_domain s ≡ map to_lower s
unfolding lower_domain
lower_domain-map [] = refl
lower_domain-map (c ∷ s) = ground (arith, to_lower_equals)

skip_dots_twice : (s : List ℕ) → skip_dots (skip_dots s) ≡ skip_dots s
unfolding skip_dots
skip_dots_twice [] = refl
skip_dots_twice (c ∷ s) = ground (arith, skip_dots_twice s)

to_lower_dot : (c : ℕ) → (to_lower c == b'.') ≡ (c == b'.')
unfolding to_lower
to_lower_dot c = ground arith

skip_dots-map : (s : List ℕ) → skip_dots (map to_lower s) ≡ map to_lower (skip_dots s)
unfolding skip_dots
skip_dots-map [] = refl
skip_dots-map (c ∷ s) = elim (Bool-cases (c == b'.')) [
  | inl e ↦ rw (to_lower_dot c, e) (skip_dots-map s)
  | inr e ↦ rw (to_lower_dot c, e)
]

pub map-reverse : (f : ℕ → ℕ) (s : List ℕ) → map f (reverse s) ≡ reverse (map f s)
map-reverse f [] = refl
map-reverse f (c ∷ s) =
    rw (reverse-cons c s, reverse-cons (f c) (map f s), map-append)
      (ap (λ t. t ++ (f c ∷ [])) (map-reverse f s))

-- Normalising is taking the dots off the end, and then lower case.
pub normalize_domain-map :
    (s : List ℕ) → normalize_domain s ≡ map to_lower (reverse (skip_dots (reverse s)))
unfolding normalize_domain
normalize_domain-map s =
    rw (lower_domain-map s, ← map-reverse to_lower s, skip_dots-map (reverse s))
      (sym (map-reverse to_lower (skip_dots (reverse s))))

-- Normalising a normalised domain changes nothing.
pub normalize_domain_twice :
    (s : List ℕ) → normalize_domain (normalize_domain s) ≡ normalize_domain s
normalize_domain_twice s =
    rw (normalize_domain-map (normalize_domain s), normalize_domain-map s)
      (rw
        (
          ← map-reverse to_lower (reverse (skip_dots (reverse s))),
          reverse-reverse,
          skip_dots-map,
          skip_dots_twice,
          map-reverse to_lower (map to_lower (skip_dots (reverse s))),
        )
        (rw map_lower_twice (sym (map-reverse to_lower (skip_dots (reverse s))))))
