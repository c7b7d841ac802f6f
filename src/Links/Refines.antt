-- ===== src/Links/Refines.antt =====
-- The links of src/core.c and src/tcpdns.c implement a list: an object in front, and one object out.
use nsproxy.Common.{
  ℕ, ◌≡◌, refl, sym, ap, ◌∙◌, ◌≢◌, inl, inr, true, List, [], ◌∷◌, ◌++◌, ◌==◌, if◌then◌else◌, ==_iff,
  Bool-cases, if_cases, ==_false,
}
use nsproxy.Links.{
  Links, set_at, push_front, set_prev_of_next, take_out, next_if_prev, take_out_worker,
}
use nsproxy.Links.Front.{set_at_here, set_at_other, set_at_same, push_front-Represents}
use nsproxy.Links.Segment.{
  Without, NoDup, Represents, Unlinked, prev_apart, unlink, new_head, before_p,
}

-- Links in which `p` is unlinked, with their head.
record TakenOut (l : Links) (p : ℕ) (m : Links) (hd : ℕ) : Type 0 where
  unlinked : Unlinked l.next l.prev m.next m.prev p
  head_is : m.head ≡ hd

-- The second half of both functions, on links whose `next` has been set.
behind_set :
    (l : Links) (p hd : ℕ) (n' : ℕ → ℕ)
    → ((a : ℕ) → a ≢ l.prev p → n' a ≡ l.next a)
    → (l.prev p ≢ 0 → n' (l.prev p) ≡ l.next p)
    → n' p ≡ l.next p
    → TakenOut l p (set_prev_of_next p (record { head = hd; next = n'; prev = l.prev })) hd
behind_set l p hd n' other there same =
    if_cases (λ m. TakenOut l p m hd) (n' p == 0) _ _
      (λ z. record {
        unlinked = record {
          other_next = other;
          before = there;
          other_prev = λ a _. refl;
          behind = λ nz. absurd (nz (sym same ∙ (==_iff (n' p) 0).0 z));
        };
        head_is = refl;
      })
      (λ _. record {
        unlinked = record {
          other_next = other;
          before = there;
          other_prev = λ a h. set_at_other l.prev (n' p) (l.prev p) a (λ e. h (e ∙ same));
          behind = λ _.
              ap (set_at l.prev (n' p) (l.prev p)) (sym same)
              ∙ set_at_here l.prev (n' p) (l.prev p);
        };
        head_is = refl;
      })

take_out-TakenOut :
    (l : Links) (p : ℕ) → TakenOut l p (take_out p l) (if l.prev p == 0 then l.next p else l.head)
unfolding take_out
take_out-TakenOut l p = elim (Bool-cases (l.prev p == 0)) [
  | inl z ↦ simp z (
      behind_set l p (l.next p) l.next (λ a _. refl) (λ nz. absurd (nz ((==_iff (l.prev p) 0).0 z)))
        refl)
  | inr nz ↦ simp nz (
      behind_set l p l.head (set_at l.next (l.prev p) (l.next p))
        (λ a h. set_at_other l.next (l.prev p) (l.next p) a h)
        (λ _. set_at_here l.next (l.prev p) (l.next p))
        (set_at_same l.next (l.prev p) (l.next p) p refl))
]

-- The second half of tcpdns_worker_destroy(), on links whose `prev` has been set.
before_set :
    (l : Links) (p : ℕ) (q' : ℕ → ℕ)
    → ((a : ℕ) → a ≢ l.next p → q' a ≡ l.prev a)
    → (l.next p ≢ 0 → q' (l.next p) ≡ l.prev p)
    → q' p ≡ l.prev p
    → TakenOut l p (next_if_prev p (record l { prev = q' })) l.head
before_set l p q' other there same =
    if_cases (λ m. TakenOut l p m l.head) (q' p == 0) _ _
      (λ z. record {
        unlinked = record {
          other_next = λ a _. refl;
          before = λ nz. absurd (nz (sym same ∙ (==_iff (q' p) 0).0 z));
          other_prev = other;
          behind = there;
        };
        head_is = refl;
      })
      (λ _. record {
        unlinked = record {
          other_next = λ a h. set_at_other l.next (q' p) (l.next p) a (λ e. h (e ∙ same));
          before = λ _.
              ap (set_at l.next (q' p) (l.next p)) (sym same)
              ∙ set_at_here l.next (q' p) (l.next p);
          other_prev = other;
          behind = there;
        };
        head_is = refl;
      })

worker-TakenOut : (l : Links) (p : ℕ) → TakenOut l p (next_if_prev p (set_prev_of_next p l)) l.head
worker-TakenOut l p = elim (Bool-cases (l.next p == 0)) [
  | inl z ↦
      simp z
        (before_set l p l.prev (λ a _. refl) (λ nz. absurd (nz ((==_iff (l.next p) 0).0 z))) refl)
  | inr nz ↦ simp nz (
      before_set l p (set_at l.prev (l.next p) (l.prev p))
        (λ a h. set_at_other l.prev (l.next p) (l.prev p) a h)
        (λ _. set_at_here l.prev (l.next p) (l.prev p))
        (set_at_same l.prev (l.next p) (l.prev p) p refl))
]

Without-drop : (a : ℕ) (xs ys : List ℕ) (p : ℕ) → Without a (xs ++ (p ∷ ys)) → Without a (xs ++ ys)
Without-drop a [] ys p (wp, w) = w
Without-drop a (x ∷ xs) ys p (wx, w) = (wx, Without-drop a xs ys p w)

NoDup-drop : (xs ys : List ℕ) (p : ℕ) → NoDup (xs ++ (p ∷ ys)) → NoDup (xs ++ ys)
NoDup-drop [] ys p (dp, d) = d
NoDup-drop (x ∷ xs) ys p (dx, d) = (Without-drop x xs ys p dx, NoDup-drop xs ys p d)

-- Unlinked links of a list are those of the list without the object.
TakenOut-Represents :
    (l m : Links) (p hd : ℕ) (xs ys : List ℕ)
    → Represents l (xs ++ (p ∷ ys))
    → TakenOut l p m hd
    → hd ≡ new_head (l.next p) xs l.head
    → Represents m (xs ++ ys)
TakenOut-Represents l m p hd xs ys r t e = record {
  seg =
      rw (t.head_is, e)
        (unlink l.next l.prev m.next m.prev p t.unlinked 0 l.head xs ys r.seg r.distinct r.proper);
  distinct = NoDup-drop xs ys p r.distinct;
  proper = Without-drop 0 xs ys p r.proper;
}

head_core :
    (l : Links) (p : ℕ) (xs ys : List ℕ)
    → Represents l (xs ++ (p ∷ ys))
    → (if l.prev p == 0 then l.next p else l.head) ≡ new_head (l.next p) xs l.head
head_core l p [] ys r =
    let first : (l.prev p == 0) ≡ true = (==_iff (l.prev p) 0).1 r.seg.2 in simp first refl
head_core l p (x ∷ xs) ys r =
    let (g, nz, k, s) = r.seg in
    let w = before_p p 0 (x ∷ xs) ys r.proper in
    let u = (take_out-TakenOut l p).unlinked in
    let m = take_out p l in
    let later = prev_apart l.next l.prev m.next m.prev p u 0 x (l.next x) xs ys s nz w.1 in
    simp (==_false (l.prev p) 0 later) refl

head_worker :
    (l : Links) (p : ℕ) (xs ys : List ℕ)
    → Represents l (xs ++ (p ∷ ys))
    → (if l.head == p then l.next p else l.head) ≡ new_head (l.next p) xs l.head
head_worker l p [] ys r =
    let first : (l.head == p) ≡ true = (==_iff l.head p).1 r.seg.0 in simp first refl
head_worker l p (x ∷ xs) ys r =
    let later : l.head ≢ p = λ e. found x xs (r.distinct.0) (sym e ∙ r.seg.0) in
    simp (==_false l.head p later) refl
  where
    found : (x : ℕ) (xs : List ℕ) → Without x (xs ++ (p ∷ ys)) → p ≢ x
    found x [] (wp, w) = wp
    found x (y ∷ xs) (wy, w) = found x xs w

next_kept :
    (l m : Links) (p : ℕ) → Unlinked l.next l.prev m.next m.prev p → p ≢ 0 → m.next p ≡ l.next p
next_kept l m p u nz = elim (Bool-cases (p == l.prev p)) [
  | inl e ↦ (let same = (==_iff p (l.prev p)).0 e in ap m.next same ∙ u.before (λ z. nz (same ∙ z)))
  | inr e ↦ u.other_next p (λ same. cc (e, (==_iff p (l.prev p)).1 same))
]

take_out_worker-TakenOut :
    (l : Links) (p : ℕ)
    → p ≢ 0
    → TakenOut l p (take_out_worker p l) (if l.head == p then l.next p else l.head)
unfolding take_out_worker
take_out_worker-TakenOut l p nz =
    headed (next_if_prev p (set_prev_of_next p l)) (worker-TakenOut l p)
  where
    headed :
        (m : Links)
        → TakenOut l p m l.head
        → TakenOut l p
            (if m.head == p then record m { head = m.next p } else m)
            (if l.head == p then l.next p else l.head)
    headed m t = elim (Bool-cases (l.head == p)) [
      | inl e ↦
          simp (t.head_is, e)
            (record { unlinked = t.unlinked; head_is = next_kept l m p t.unlinked nz })
      | inr e ↦ simp (t.head_is, e) (record { unlinked = t.unlinked; head_is = t.head_is })
    ]

member_proper : (xs ys : List ℕ) (p : ℕ) → Without 0 (xs ++ (p ∷ ys)) → p ≢ 0
member_proper [] ys p (w, ws) = w
member_proper (x ∷ xs) ys p (w, ws) = member_proper xs ys p ws

-- The functions of src/core.c and of src/tcpdns.c implement the same list, whatever the addresses. To
-- links that represent any list of distinct objects, be it empty, a new object that is not NULL is
-- added in front. From links that represent a list of distinct objects, any one that is in the list,
-- first, last or between others, is taken out, while the rest keep their order.
pub take_out-Represents :
    (m l : Links) (new p : ℕ) (zs xs ys : List ℕ)
    → Represents m zs
    → new ≢ 0
    → Without new zs
    → Represents l (xs ++ (p ∷ ys))
    → Represents (push_front new m) (new ∷ zs)
      × (Represents (take_out p l) (xs ++ ys) × Represents (take_out_worker p l) (xs ++ ys))
take_out-Represents m l new p zs xs ys e nz fresh r = (
  push_front-Represents m new zs e nz fresh,
  (
    TakenOut-Represents l (take_out p l) p _ xs ys r (take_out-TakenOut l p)
        (head_core l p xs ys r),
    TakenOut-Represents l (take_out_worker p l) p _ xs ys r
        (take_out_worker-TakenOut l p (member_proper xs ys p r.proper)) (head_worker l p xs ys r),
  ),
)
