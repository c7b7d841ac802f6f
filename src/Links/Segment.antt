-- ===== src/Links/Segment.antt =====
-- Segments of the linked lists of src/core.c and src/tcpdns.c, and what unlinking one object leaves.
use nsproxy.Common.{ℕ, ◌≡◌, sym, ap, ◌∙◌, ◌≢◌, List, [], ◌∷◌, ◌++◌, All}
use nsproxy.Links.{Links}

abbrev pub Without : ℕ → List ℕ → Type 0
Without a zs = All (λ z. z ≢ a) zs

abbrev pub NoDup : List ℕ → Type 0
NoDup [] = Unit {0}
NoDup (x ∷ xs) = Without x xs × NoDup xs

-- The objects from address `h` on are `xs`, behind the object at `b`.
abbrev pub Seg : (ℕ → ℕ) → (ℕ → ℕ) → ℕ → ℕ → List ℕ → Type 0
Seg next prev b h [] = h ≡ 0
Seg next prev b h (x ∷ xs) = (h ≡ x) × (x ≢ 0) × (prev x ≡ b) × Seg next prev x (next x) xs

-- The links are those of this list, whose objects are distinct.
pub record Represents (l : Links) (xs : List ℕ) : Type 0 where
  pub seg : Seg l.next l.prev 0 l.head xs
  pub distinct : NoDup xs
  pub proper : Without 0 xs

-- Links that agree with others at every object of a segment.
pub frame :
    (n q n' q' : ℕ → ℕ) (b h : ℕ) (zs : List ℕ)
    → All (λ z. (n' z ≡ n z) × (q' z ≡ q z)) zs
    → Seg n q b h zs
    → Seg n' q' b h zs
frame n q n' q' b h [] a s = s
frame n q n' q' b h (z ∷ zs) ((e, f), a) (g, nz, k, s) =
    (g, nz, f ∙ k, rw e (frame n q n' q' z (n z) zs a s))

pub before_p : (p a : ℕ) (xs ys : List ℕ) → Without a (xs ++ (p ∷ ys)) → Without a xs
before_p p a [] ys w = tt
before_p p a (x ∷ xs) ys (wx, w) = (wx, before_p p a xs ys w)

pub behind_p : (p a : ℕ) (xs ys : List ℕ) → Without a (xs ++ (p ∷ ys)) → Without a ys
behind_p p a [] ys (wp, w) = w
behind_p p a (x ∷ xs) ys (wx, w) = behind_p p a xs ys w

-- The head of the rest: what stands behind the object that is out, if that was the first.
abbrev pub new_head : ℕ → List ℕ → ℕ → ℕ
new_head r [] h = r
new_head r (x ∷ xs) h = h

-- The object at `p` is taken out of its place: nothing changes but `next` of the object before it and
-- `prev` of the object behind it.
pub record Unlinked (n q n' q' : ℕ → ℕ) (p : ℕ) : Type 0 where
  pub other_next : (a : ℕ) → a ≢ q p → n' a ≡ n a
  pub before : q p ≢ 0 → n' (q p) ≡ n p
  pub other_prev : (a : ℕ) → a ≢ n p → q' a ≡ q a
  pub behind : n p ≢ 0 → q' (n p) ≡ q p

module _ (n q n' q' : ℕ → ℕ) (p : ℕ) (u : Unlinked n q n' q' p) where
  untouched :
      (zs : List ℕ)
      → Without (q p) zs
      → Without (n p) zs
      → All (λ z. (n' z ≡ n z) × (q' z ≡ q z)) zs
  untouched [] h k = tt
  untouched (z ∷ zs) (h, hs) (k, ks) = ((u.other_next z h, u.other_prev z k), untouched zs hs ks)

  relink :
      (b : ℕ) (ys : List ℕ)
      → q p ≡ b
      → Without b ys
      → NoDup ys
      → Seg n q p (n p) ys
      → Seg n' q' b (n p) ys
  relink b [] e w d s = s
  relink b (y ∷ ys) e (wy, w) (dy, d) (g, nz, k, s) =
      let back : q' (n p) ≡ q p = u.behind (λ z. nz (sym g ∙ z)) in
      let same = u.other_next y (λ z. wy (z ∙ e)) in
      let rest = untouched ys (rw e w) (rw g dy) in
      (g, nz, ap q' (sym g) ∙ back ∙ e, rw same (frame n q n' q' y (n y) ys rest s))

  -- The object before `p` is none that stands elsewhere.
  pub prev_apart :
      (a b h : ℕ) (xs ys : List ℕ) → Seg n q b h (xs ++ (p ∷ ys)) → b ≢ a → Without a xs → q p ≢ a
  prev_apart a b h [] ys (g, nz, k, s) w ws = λ e. w (sym k ∙ e)
  prev_apart a b h (x ∷ xs) ys (g, nz, k, s) w (wx, ws) = prev_apart a x (n x) xs ys s wx ws

  next_apart :
      (a b h : ℕ) (xs ys : List ℕ) → Seg n q b h (xs ++ (p ∷ ys)) → a ≢ 0 → Without a ys → a ≢ n p
  next_apart a b h (x ∷ xs) ys (g, nz, k, s) z w = next_apart a x (n x) xs ys s z w
  next_apart a b h [] [] (g, nz, k, s) z w = λ e. z (e ∙ s)
  next_apart a b h [] (y ∷ ys) (g, nz, k, s) z (wy, w) = λ e. wy (sym (e ∙ s.0))

  step_over :
      (x : ℕ) (xs ys : List ℕ)
      → x ≢ 0
      → Without x xs
      → Seg n q x (n x) (xs ++ (p ∷ ys))
      → n' x ≡ new_head (n p) xs (n x)
  step_over x [] ys nz w (g, pz, k, s) = rw (sym k) (u.before (λ z. nz (sym k ∙ z)))
  step_over x (x2 ∷ xs) ys nz (w2, w) (g, xz, k, s) =
      u.other_next x (λ e. prev_apart x x2 (n x2) xs ys s w2 w (sym e))

  -- The segment without `p`.
  pub unlink :
      (b h : ℕ) (xs ys : List ℕ)
      → Seg n q b h (xs ++ (p ∷ ys))
      → NoDup (xs ++ (p ∷ ys))
      → Without b (xs ++ (p ∷ ys))
      → Seg n' q' b (new_head (n p) xs h) (xs ++ ys)
  unlink b h [] ys (g, nz, k, s) (dp, d) (wp, w) = relink b ys k w d s
  unlink b h (x ∷ xs) ys (g, nz, k, s) (dx, d) (wx, w) =
      let far = next_apart x x (n x) xs ys s nz (behind_p p x xs ys dx) in
      let prev_kept = u.other_prev x far in
      let over = step_over x xs ys nz (before_p p x xs ys dx) s in
      (g, nz, prev_kept ∙ k, rw over (unlink x (n x) xs ys s d dx))
