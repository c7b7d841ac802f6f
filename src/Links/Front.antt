-- ===== src/Links/Front.antt =====
-- A new object in front of a list of src/core.c and src/tcpdns.c.
use nsproxy.Common.{
  ℕ, ◌≡◌, refl, sym, ap, ◌∙◌, ◌≢◌, false, List, [], ◌∷◌, ◌==◌, ==_iff, if_cases, ==_false, All,
}
use nsproxy.Links.{Links, set_at, push_front}
use nsproxy.Links.Segment.{Without, Seg, Represents, frame}

pub set_at_here : (f : ℕ → ℕ) (p v : ℕ) → set_at f p v p ≡ v
unfolding set_at
set_at_here f p v = rw ((==_iff p p).1 refl) refl

pub set_at_other : (f : ℕ → ℕ) (p v a : ℕ) → a ≢ p → set_at f p v a ≡ f a
unfolding set_at
set_at_other f p v a h = rw (==_false a p h) refl

-- A write of a value that was there already where it is read.
pub set_at_same : (f : ℕ → ℕ) (p v a : ℕ) → f a ≡ v → set_at f p v a ≡ v
unfolding set_at
set_at_same f p v a h = if_cases (λ t. t ≡ v) (a == p) v (f a) (λ _. refl) (λ _. h)

set_at-frame :
    (l : Links) (p v w : ℕ) (xs : List ℕ)
    → Without p xs
    → Without w xs
    → All (λ z. (set_at l.next p v z ≡ l.next z) × (set_at (set_at l.prev p 0) w p z ≡ l.prev z)) xs
set_at-frame l p v w [] h k = tt
set_at-frame l p v w (x ∷ xs) (h, hs) (k, ks) = (
  (
    set_at_other l.next p v x h,
    set_at_other (set_at l.prev p 0) w p x k ∙ set_at_other l.prev p 0 x h,
  ),
  set_at-frame l p v w xs hs ks,
)

-- The new object in front.
pub push_front-Represents :
    (l : Links) (p : ℕ) (xs : List ℕ)
    → Represents l xs
    → p ≢ 0
    → Without p xs
    → Represents (push_front p l) (p ∷ xs)
unfolding push_front
push_front-Represents l p [] r nz fresh = record {
  seg = (
    refl,
    nz,
    simp ((==_iff l.head 0).1 r.seg) (set_at_here l.prev p 0),
    set_at_here l.next p l.head ∙ r.seg,
  );
  distinct = (tt, tt);
  proper = (nz, tt);
}
push_front-Represents l p (x ∷ xs) r nz (fx, fresh) =
    let (g, xz, k, s) = r.seg in
    let some_head : (l.head == 0) ≡ false = ==_false l.head 0 (λ z. xz (sym g ∙ z)) in
    let apart : p ≢ l.head = λ e. fx (sym g ∙ sym e) in
    let rest = set_at-frame l p l.head l.head xs fresh (rw g r.distinct.0) in
    let n' = set_at l.next p l.head in
    let q' = set_at (set_at l.prev p 0) l.head p in
    let all : push_front p l ≡ record { head = p; next = n'; prev = q' } = simp some_head refl in
    let over : n' x ≡ l.next x = set_at_other l.next p l.head x (λ e. fx e) in
    let tail : Seg n' q' x (n' x) xs = rw over (frame l.next l.prev n' q' x (l.next x) xs rest s) in
    rw all (record {
      seg = (
        refl,
        nz,
        set_at_other (set_at l.prev p 0) l.head p p apart ∙ set_at_here l.prev p 0,
        (
          set_at_here l.next p l.head ∙ g,
          xz,
          ap q' (sym g) ∙ set_at_here (set_at l.prev p 0) l.head p,
          tail,
        ),
      );
      distinct = ((fx, fresh), r.distinct);
      proper = (nz, r.proper);
    })
