-- ===== src/Rules/Cidr/Match.antt =====
-- cidr_match_bytes() of src/core.c compares bit prefixes.
use nsproxy.Common.{
  ℕ, zero, suc, ◌+◌, ◌*◌, ◌/◌, ◌%◌, ◌≤◌, ◌<◌, ◌≡◌, refl, ◌↔◌, inl, inr, true, false, not, ◌&&◌,
  List, [], ◌∷◌, arith, ltb, ◌==◌, if◌then◌else◌, ==_iff, ◌===◌, ===_refl, Bool-cases, &&_parts,
  length, take, All,
}
use nsproxy.Rules.Cidr.{rest_matches, cidr_match_bytes}
use nsproxy.Rules.Cidr.Bits.{IsByte, bits, mask_bits}

-- The byte that the prefix ends in.
rest_iff :
    (r x y : ℕ) (a n : List ℕ)
    → r < 8
    → IsByte x
    → IsByte y
    → (rest_matches (x ∷ a) (y ∷ n) 0 r ≡ true) ↔ (take r (bits (x ∷ a)) ≡ take r (bits (y ∷ n)))
unfolding rest_matches bits
rest_iff zero x y a n hr hx hy = (λ h. refl, λ h. refl)
rest_iff (suc zero) x y a n hr hx hy = (
  λ h. ground (arith, mask_bits 1 x hr hx, mask_bits 1 y hr hy),
  λ h. ground (arith, mask_bits 1 x hr hx, mask_bits 1 y hr hy),
)
rest_iff (suc (suc zero)) x y a n hr hx hy = (
  λ h. ground (arith, mask_bits 2 x hr hx, mask_bits 2 y hr hy),
  λ h. ground (arith, mask_bits 2 x hr hx, mask_bits 2 y hr hy),
)
rest_iff (suc (suc (suc zero))) x y a n hr hx hy = (
  λ h. ground (arith, mask_bits 3 x hr hx, mask_bits 3 y hr hy),
  λ h. ground (arith, mask_bits 3 x hr hx, mask_bits 3 y hr hy),
)
rest_iff (suc (suc (suc (suc zero)))) x y a n hr hx hy = (
  λ h. ground (arith, mask_bits 4 x hr hx, mask_bits 4 y hr hy),
  λ h. ground (arith, mask_bits 4 x hr hx, mask_bits 4 y hr hy),
)
rest_iff (suc (suc (suc (suc (suc zero))))) x y a n hr hx hy = (
  λ h. ground (arith, mask_bits 5 x hr hx, mask_bits 5 y hr hy),
  λ h. ground (arith, mask_bits 5 x hr hx, mask_bits 5 y hr hy),
)
rest_iff (suc (suc (suc (suc (suc (suc zero)))))) x y a n hr hx hy = (
  λ h. ground (arith, mask_bits 6 x hr hx, mask_bits 6 y hr hy),
  λ h. ground (arith, mask_bits 6 x hr hx, mask_bits 6 y hr hy),
)
rest_iff (suc (suc (suc (suc (suc (suc (suc zero))))))) x y a n hr hx hy = (
  λ h. ground (arith, mask_bits 7 x hr hx, mask_bits 7 y hr hy),
  λ h. ground (arith, mask_bits 7 x hr hx, mask_bits 7 y hr hy),
)
rest_iff (suc (suc (suc (suc (suc (suc (suc (suc r)))))))) x y a n hr hx hy = absurd (omega arith)

-- Dropping one byte of both sides.
rest_shift :
    (x y : ℕ) (a n : List ℕ) (f r : ℕ)
    → rest_matches (x ∷ a) (y ∷ n) (suc f) r ≡ rest_matches a n f r
unfolding rest_matches
rest_shift x y a n f r = refl

-- A byte is its eight bits.
byte_eq :
    (x y : ℕ) (a n : List ℕ)
    → IsByte x
    → IsByte y
    → take 8 (bits (x ∷ a)) ≡ take 8 (bits (y ∷ n))
    → x ≡ y
unfolding bits
byte_eq x y a n hx hy h = ground arith

abbrev eight : ℕ → ℕ
eight k = suc (suc (suc (suc (suc (suc (suc (suc k)))))))

eight_more :
    (x y k : ℕ) (a n : List ℕ)
    → take (eight k) (bits (x ∷ a)) ≡ take (eight k) (bits (y ∷ n))
    → (take 8 (bits (x ∷ a)) ≡ take 8 (bits (y ∷ n))) × (take k (bits a) ≡ take k (bits n))
unfolding bits
eight_more x y k a n h = ground arith

-- The number of bits in f bytes and r bits.
abbrev count_bits : ℕ → ℕ → ℕ
count_bits zero r = r
count_bits (suc f) r = eight (count_bits f r)

count_bits_eq : (f r : ℕ) → count_bits f r ≡ f * 8 + r
count_bits_eq zero r = omega arith
count_bits_eq (suc f) r = omega (arith, count_bits_eq f r)

eight-bits :
    (x k : ℕ) (a n : List ℕ)
    → take k (bits a) ≡ take k (bits n)
    → take (eight k) (bits (x ∷ a)) ≡ take (eight k) (bits (x ∷ n))
unfolding bits
eight-bits x k a n h = rw h

bytes_to_bits :
    (f r : ℕ) (a n : List ℕ)
    → r < 8
    → All IsByte a
    → All IsByte n
    → length a ≡ length n
    → f * 8 + r ≤ 8 * length a
    → (take f a === take f n) ≡ true
    → rest_matches a n f r ≡ true
    → take (count_bits f r) (bits a) ≡ take (count_bits f r) (bits n)
unfolding ◌===◌
bytes_to_bits zero zero [] n hr ha hn len room e m = refl
bytes_to_bits zero (suc r) [] n hr ha hn len room e m = absurd (omega arith)
bytes_to_bits zero r (x ∷ a) [] hr ha hn len room e m = absurd (omega arith)
bytes_to_bits zero r (x ∷ a) (y ∷ n) hr ha hn len room e m = (rest_iff r x y a n hr ha.0 hn.0).0 m
bytes_to_bits (suc f) r [] n hr ha hn len room e m = absurd (omega arith)
bytes_to_bits (suc f) r (x ∷ a) [] hr ha hn len room e m = absurd (omega arith)
bytes_to_bits (suc f) r (x ∷ a) (y ∷ n) hr ha hn len room e m =
    let (same, more) = &&_parts (x == y) (take f a === take f n) e in
    let below =
      bytes_to_bits f r a n hr ha.1 hn.1 (omega arith) (omega arith) more
        (rw (rest_shift x y a n f r) at m) in
    rw ((==_iff x y).0 same) (eight-bits y (count_bits f r) a n below)

bits_to_bytes :
    (f r : ℕ) (a n : List ℕ)
    → r < 8
    → All IsByte a
    → All IsByte n
    → length a ≡ length n
    → f * 8 + r ≤ 8 * length a
    → take (count_bits f r) (bits a) ≡ take (count_bits f r) (bits n)
    → ((take f a === take f n) ≡ true) × (rest_matches a n f r ≡ true)
unfolding ◌===◌
bits_to_bytes zero zero [] n hr ha hn len room e = (refl, unfold rest_matches in refl)
bits_to_bytes zero (suc r) [] n hr ha hn len room e = absurd (omega arith)
bits_to_bytes zero r (x ∷ a) [] hr ha hn len room e = absurd (omega arith)
bits_to_bytes zero r (x ∷ a) (y ∷ n) hr ha hn len room e =
    (refl, (rest_iff r x y a n hr ha.0 hn.0).1 e)
bits_to_bytes (suc f) r [] n hr ha hn len room e = absurd (omega arith)
bits_to_bytes (suc f) r (x ∷ a) [] hr ha hn len room e = absurd (omega arith)
bits_to_bytes (suc f) r (x ∷ a) (y ∷ n) hr ha hn len room e =
    let (first, more) = eight_more x y (count_bits f r) a n e in
    let (same, m) = bits_to_bytes f r a n hr ha.1 hn.1 (omega arith) (omega arith) more in
    (rw ((==_iff x y).1 (byte_eq x y a n ha.0 hn.0 first)) same, rw (rest_shift x y a n f r) m)

-- Two addresses of the same number of bytes match under a prefix length within them exactly when
-- they agree in that many bits.
pub cidr_match_bytes_iff :
    (addr network : List ℕ) (prefixlen : ℕ)
    → All IsByte addr
    → All IsByte network
    → length addr ≡ length network
    → prefixlen ≤ 8 * length addr
    → (cidr_match_bytes addr network prefixlen ≡ true)
      ↔ (take prefixlen (bits addr) ≡ take prefixlen (bits network))
unfolding cidr_match_bytes
cidr_match_bytes_iff addr network p ha hn len room =
    let count : count_bits (p / 8) (p % 8) ≡ p = omega (arith, count_bits_eq (p / 8) (p % 8)) in
    (
      λ h.
          let (e, m) = split h in
          rw count at
            (bytes_to_bits (p / 8) (p % 8) addr network (omega arith) ha hn len (omega arith) e m),
      λ h.
          let (e, m) =
            bits_to_bytes (p / 8) (p % 8) addr network (omega arith) ha hn len (omega arith)
              (rw count h) in
          rw (e, m) (ground arith),
    )
  where
    split :
        (if ltb 0 (p / 8) && not (take (p / 8) addr === take (p / 8) network)
            then false
            else rest_matches addr network (p / 8) (p % 8))
          ≡ true
        → ((take (p / 8) addr === take (p / 8) network) ≡ true)
          × (rest_matches addr network (p / 8) (p % 8) ≡ true)
    split h = elim (Bool-cases (ltb 0 (p / 8))) [
      | inl e ↦ elim (Bool-cases (take (p / 8) addr === take (p / 8) network)) [
        | inl g ↦ (g, (rw (e, g) at h))
        | inr g ↦ cc (h, e, g)
      ]
      | inr e ↦ let z : p / 8 ≡ 0 = ground arith in (rw z (===_refl []), (rw e at h))
    ]
