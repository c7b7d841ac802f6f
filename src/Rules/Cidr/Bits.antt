-- ===== src/Rules/Cidr/Bits.antt =====
-- Addresses as bit strings, the most significant bit first.
use nsproxy.Common.{
  ℕ, ◌-◌, ◌*◌, ◌/◌, ◌%◌, ◌^◌, ◌<◌, bit_and, ◌≡◌, refl, Bool, true, List, [], ◌∷◌, ◌==◌, ==_iff,
}
use nsproxy.Common.Bytes.{all_below, all_below_sound}

abbrev pub IsByte : ℕ → Type 0
IsByte b = b < 256

unfoldable pub bits : List ℕ → List ℕ
bits [] = []
bits (b ∷ s) =
    b / 128 % 2
    ∷ b / 64 % 2
    ∷ b / 32 % 2
    ∷ b / 16 % 2
    ∷ b / 8 % 2
    ∷ b / 4 % 2
    ∷ b / 2 % 2
    ∷ b % 2
    ∷ bits s

abbrev row : ℕ → ℕ → Bool
row r x = bit_and x (0xff * 2 ^ (8 - r) % 256) == x / 2 ^ (8 - r) * 2 ^ (8 - r) % 256

table : all_below 8 (λ r. all_below 256 (row r)) ≡ true
unfolding all_below
table = refl

-- The mask of a prefix of r bits clears the other 8 - r.
pub mask_bits :
    (r x : ℕ)
    → r < 8
    → x < 256
    → bit_and x (0xff * 2 ^ (8 - r) % 256) ≡ x / 2 ^ (8 - r) * 2 ^ (8 - r) % 256
mask_bits r x hr hx =
    (==_iff _ _).0
      (all_below_sound 256 (row r) x (all_below_sound 8 (λ k. all_below 256 (row k)) r table hr) hx)
