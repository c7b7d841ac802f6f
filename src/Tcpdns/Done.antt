-- ===== src/Tcpdns/Done.antt =====
-- The workers of src/tcpdns.c that are done, and the search for the first.
use nsproxy.Common.{
  ℕ, suc, ◌+◌, ◌-◌, ◌≤◌, ◌≡◌, refl, sym, ap, ◌∙◌, inl, inr, true, false, some, List, [], ◌∷◌, ◌++◌,
  arith, leb, if◌then◌else◌, leb→le, Bool-cases, if_cases, length, take, drop, All, length-drop,
  take_all,
}
use nsproxy.Tcpdns.{TcpdnsWorker, first_done, without_first_done}
use nsproxy.Tcpdns.Worker.{WorkerValid}

abbrev pub count_done : List TcpdnsWorker → ℕ
count_done [] = 0
count_done (w ∷ ws) = (if w.done then 1 else 0) + count_done ws

pub count_done-append :
    (xs ys : List TcpdnsWorker) → count_done (xs ++ ys) ≡ count_done xs + count_done ys
count_done-append [] ys = omega arith
count_done-append (x ∷ xs) ys = omega (arith, count_done-append xs ys)

-- What a search for a worker that is done finds, among `suc n` of them.
pub record Found (ws : List TcpdnsWorker) (n : ℕ) : Type 0 where
  pub worker : TcpdnsWorker
  pub is_first : first_done ws ≡ some worker
  pub is_done : worker.done ≡ true
  pub valid : WorkerValid worker
  pub fewer : count_done (without_first_done ws) ≡ n
  pub others : All WorkerValid (without_first_done ws)

module _ (w : TcpdnsWorker) (ws : List TcpdnsWorker) where
  first_here :
      (n : ℕ)
      → WorkerValid w
      → All WorkerValid ws
      → w.done ≡ true
      → count_done (w ∷ ws) ≡ suc n
      → Found (w ∷ ws) n
  unfolding first_done without_first_done
  first_here n v vs d e =
      let taken : without_first_done (w ∷ ws) ≡ ws = simp d refl in
      record {
        worker = w;
        is_first = simp d refl;
        is_done = d;
        valid = v;
        fewer = ap count_done taken ∙ omega (arith, simp d at e);
        others = simp d vs;
      }

  first_later : (n : ℕ) → WorkerValid w → w.done ≡ false → Found ws n → Found (w ∷ ws) n
  unfolding first_done without_first_done
  first_later n v d f =
      let kept : without_first_done (w ∷ ws) ≡ w ∷ without_first_done ws = simp d refl in
      record {
        worker = f.worker;
        is_first = simp d f.is_first;
        is_done = f.is_done;
        valid = f.valid;
        fewer = ap count_done kept ∙ simp d (omega (arith, f.fewer));
        others = simp d (v, f.others);
      }

pub first_done_lem :
    (ws : List TcpdnsWorker) (n : ℕ) → All WorkerValid ws → count_done ws ≡ suc n → Found ws n
first_done_lem [] n v e = absurd (omega (arith, e))
first_done_lem (w ∷ ws) n (v, vs) e = elim (Bool-cases w.done) [
  | inl d ↦ first_here w ws n v vs d e
  | inr d ↦ first_later w ws n v d (first_done_lem ws n vs (omega (arith, simp d at e)))
]

pub le→leb : (a b : ℕ) → a ≤ b → leb a b ≡ true
le→leb a b h = ground arith

-- The answer, cut as the code does it.
pub cut_at :
    (s : List ℕ) (size : ℕ)
    → take (if leb (length s - 2) size then length s - 2 else size) (drop 2 s)
      ≡ take size (drop 2 s)
cut_at s size =
    if_cases (λ n. take n (drop 2 s) ≡ take size (drop 2 s)) (leb (length s - 2) size) _ _
      (λ h.
        take_all (length s - 2) (drop 2 s) (omega (arith, length-drop 2 s))
        ∙ sym (take_all size (drop 2 s) (omega (arith, length-drop 2 s, leb→le _ _ h))))
      (λ _. refl)
