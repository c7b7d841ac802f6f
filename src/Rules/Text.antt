-- ===== src/Rules/Text.antt =====
-- src/main.c: trim_ascii_space() and normalize_domain(), on the bytes of a C string.
pub mod Laws
use nsproxy.Common.{
  ℕ, ◌+◌, ◌-◌, Bool, ◌||◌, ◌&&◌, List, [], ◌∷◌, map, reverse, ◌==◌, leb, if◌then◌else◌,
}

unfoldable pub is_space : ℕ → Bool
is_space c = c == b' ' || c == 9 || c == 13 || c == 10 || c == 11 || c == 12

-- The first loop: `str` moves over the spaces in front.
unfoldable pub skip_space : List ℕ → List ℕ
skip_space [] = []
skip_space (c ∷ s) = if is_space c then skip_space s else c ∷ s

-- The second loop walks from the end, so it sees the string in reverse.
unfoldable pub trim_ascii_space : List ℕ → List ℕ
unfolding skip_space is_space
trim_ascii_space s = reverse (skip_space (reverse (skip_space s)))

unfoldable pub to_lower : ℕ → ℕ
to_lower c = if leb b'A' c && leb c b'Z' then c - b'A' + b'a' else c

-- A leading `=` is stepped over; the rest is put in lower case.
unfoldable pub lower_domain : List ℕ → List ℕ
unfolding to_lower
lower_domain [] = []
lower_domain (c ∷ s) = if c == b'=' then c ∷ map to_lower s else to_lower c ∷ map to_lower s

pub skip_dots : List ℕ → List ℕ
skip_dots [] = []
skip_dots (c ∷ s) = if c == b'.' then skip_dots s else c ∷ s

unfoldable pub normalize_domain : List ℕ → List ℕ
unfolding lower_domain skip_dots
normalize_domain domain = reverse (skip_dots (reverse (lower_domain domain)))
