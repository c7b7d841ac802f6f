-- ===== src/Core/Udp/Queue.antt =====
-- The receive queue of UDP forwarding in src/core.c.
use nsproxy.Common.{
  ℕ, zero, suc, ◌-◌, ◌≤◌, ◌≡◌, refl, sym, ap, ◌∙◌, inl, inr, Bool, false, some, List, [], ◌∷◌, ◌++◌,
  append-nil, append_assoc, arith, ◌==◌, if◌then◌else◌, Bool-cases, length, drop, length-append,
  length-drop,
}
use nsproxy.Skutils.{Ret}
use nsproxy.Core.Udp.{UdpForward, queue_size, udp_enqueue, udp_proxy_output, udp_lwip_received}

-- Datagrams from the application, one after another.
unfoldable pub all_received : (ℕ → List ℕ → Ret) → List (List ℕ) → UdpForward → UdpForward
all_received send [] fwd = fwd
all_received send (p ∷ ps) fwd = all_received send ps (udp_lwip_received send (some p) fwd).fwd

-- The last datagrams, as many as the queue has places.
abbrev pub newest : List (List ℕ) → List (List ℕ)
newest ps = drop (length ps - queue_size) ps

module _ {A : Type 0} where
  drop_one : (k : ℕ) (s : List A) → drop 1 (drop k s) ≡ drop (suc k) s
  drop_one zero s = refl
  drop_one (suc k) [] = refl
  drop_one (suc k) (x ∷ s) = drop_one k s

  drop_front : (k : ℕ) (s p : List A) → k ≤ length s → drop k (s ++ p) ≡ drop k s ++ p
  drop_front zero s p h = refl
  drop_front (suc k) [] p h = absurd (omega arith)
  drop_front (suc k) (x ∷ s) p h = drop_front k s p (omega arith)

enqueue-newest :
    (seen : List (List ℕ)) (p : List ℕ) → udp_enqueue (newest seen) p ≡ newest (seen ++ (p ∷ []))
unfolding udp_enqueue
enqueue-newest seen p =
    let size = length-drop (length seen - 8) seen in
    let more = length-append seen (p ∷ []) in
    elim (Bool-cases (length (newest seen) == 8)) [
      | inl full ↦
          let one : suc (length seen - 8) ≡ length (seen ++ (p ∷ [])) - 8 = ground arith in
          rw full (
            ap (λ s. s ++ (p ∷ [])) (drop_one (length seen - 8) seen)
            ∙ sym (drop_front (suc (length seen - 8)) seen (p ∷ []) (ground arith))
            ∙ ap (λ k. drop k (seen ++ (p ∷ []))) one)
      | inr space ↦
          let k : length seen - 8 ≡ 0 = ground arith in
          let l : length (seen ++ (p ∷ [])) - 8 ≡ 0 = ground arith in
          rw space
            (ap (λ n. drop n seen ++ (p ∷ [])) k ∙ ap (λ n. drop n (seen ++ (p ∷ []))) (sym l))
    ]

-- While there is no proxy, the queue is the newest eight of the datagrams received, in order: each
-- further one drops the oldest. It starts with the newest of those `seen`.
pub all_received-newest :
    (send : ℕ → List ℕ → Ret) (ps seen : List (List ℕ)) (fwd : UdpForward)
    → fwd.proxy ≡ false
    → fwd.rcvq ≡ newest seen
    → (all_received send ps fwd).rcvq ≡ newest (seen ++ ps)
unfolding all_received udp_lwip_received
all_received-newest send [] seen fwd off e = e ∙ ap newest (sym (append-nil seen))
all_received-newest send (p ∷ ps) seen fwd off e =
    ap (λ f. (all_received send ps f).rcvq) (pending fwd.proxy off)
    ∙ all_received-newest send ps (seen ++ (p ∷ [])) (record fwd { rcvq = udp_enqueue fwd.rcvq p })
        off (ap (λ q. udp_enqueue q p) e ∙ enqueue-newest seen p)
    ∙ ap newest (append_assoc seen (p ∷ []) ps)
  where
    pending :
        (b : Bool)
        → b ≡ false
        → (if b
            then udp_proxy_output send (record fwd { rcvq = udp_enqueue fwd.rcvq p })
            else record {
              fwd = record fwd { rcvq = udp_enqueue fwd.rcvq p };
              passed = [];
              masks = [];
              destroyed = false;
            }).fwd
          ≡ record fwd { rcvq = udp_enqueue fwd.rcvq p }
    pending b h = rw h refl
