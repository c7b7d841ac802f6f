-- ===== src/Rules/Capacity.antt =====
-- src/main.c: next_capacity(), which grows the two arrays of rules. A size_t is taken mod 2 ^ 64.
use nsproxy.Common.{
  ℕ, zero, suc, ◌+◌, ◌%◌, ◌^◌, ◌<◌, ◌≡◌, Option, none, some, arith, ltb, leb, ◌==◌, if◌then◌else◌,
}

abbrev size_mod : ℕ
size_mod = 2 ^ 64

-- The `while` loop, on fuel; `none` means that the fuel ran out. The overflow guard is the test
-- `newnext <= next`.
capacity_loop : ℕ → ℕ → ℕ → ℕ → Option ℕ
capacity_loop zero current prev next = none
capacity_loop (suc fuel) current prev next =
    let newnext = (prev + next) % size_mod in
    let rest = capacity_loop fuel current next newnext in
    if leb next current
    then (if leb newnext next then some ((current + 1) % size_mod) else rest)
    else some next

-- The Fibonacci numbers from 16 on would pass 2 ^ 64 within 100 rounds.
unfoldable pub next_capacity : ℕ → Option ℕ
unfolding capacity_loop
next_capacity current = if current == 0 then some 16 else capacity_loop 100 current 0 16

-- Whatever the current capacity, the loop ends, and within one round: up to 15 the answer is 16, and
-- from 16 on it is one more than the current capacity, since the guard compares 0 + 16 with 16.
pub next_capacity_lem :
    (current : ℕ)
    → next_capacity current ≡ some (if ltb current 16 then 16 else (current + 1) % 2 ^ 64)
unfolding next_capacity
next_capacity_lem current = ground arith

-- The new capacity is above the current one, for every size_t but the largest.
pub next_capacity_grows :
    (current : ℕ)
    → current + 1 < 2 ^ 64
    → (n : ℕ) × (next_capacity current ≡ some n) × (current < n) × (n < 2 ^ 64)
next_capacity_grows current h = (
  if ltb current 16 then 16 else (current + 1) % 2 ^ 64,
  next_capacity_lem current,
  ground arith,
  ground arith,
)

-- The capacity after a growth.
unfoldable pub grown : ℕ → ℕ
unfolding next_capacity
grown current = elim (next_capacity current) [ some n ↦ n | none ↦ current ]

pub lt-grown : (current : ℕ) → current + 1 < 2 ^ 64 → current < grown current
unfolding grown
lt-grown current h = ground (arith, next_capacity_lem current)
