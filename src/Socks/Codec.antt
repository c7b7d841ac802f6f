-- ===== src/Socks/Codec.antt =====
-- The message parts of src/socks.c: socks5_hdr_put(), socks5_hdr_get(), socks5_addr_put() and
-- socks5_addr_get(). What they write is the list of the bytes; `none` is -1. A char buffer that
-- holds a string is the list of its bytes before the NUL.
pub mod RoundTrip
use nsproxy.Common.{
  ℕ, zero, suc, ◌+◌, ◌-◌, ◌*◌, ◌/◌, ◌%◌, ◌^◌, ◌≤◌, ◌<◌, bit_and, bit_or, ◌≡◌, refl, sym, ap, ◌∙◌,
  ◌≢◌, ◌↔◌, ◌⊎◌, inl, inr, Bool, true, false, not, ◌&&◌, ◌||◌, Option, none, some, List, [], ◌∷◌,
  ◌++◌, map, reverse, append-nil, append_assoc, arith, ltb, leb, ◌==◌, if◌then◌else◌, ltb→lt,
  lt→ltb, leb→le, ==_iff, ◌===◌, ===→eq, ===_refl, Bool-cases, Option-cases, ||_cases, ||_right,
  &&_parts, absorb, if_cases, leb-false, ltb-false, ==_false, le_of_ltb, lt_of_leb, length,
  get_elem?, get_or, take, drop, replicate, any, All, length-append, length-reverse,
  length-replicate, length-take, length-drop, take-append-drop, take-append, drop-append, take_all,
  get_elem?-append, get_elem?_below, any-append, All-append, any_mem, Some, any_iff, tail_eq,
}

-- inet_pton() and inet_ntop() of the C library, for IPv4 and IPv6.
pub record Inet : Type 0 where
  pub pton4 : List ℕ → Option (List ℕ)
  pub pton6 : List ℕ → Option (List ℕ)
  pub ntop4 : List ℕ → List ℕ
  pub ntop6 : List ℕ → List ℕ

-- An address that they read is 4 or 16 bytes long.
pub record InetLaws (inet : Inet) : Type 0 where
  pub pton4_size : (s b : List ℕ) → inet.pton4 s ≡ some b → length b ≡ 4
  pub pton6_size : (s b : List ℕ) → inet.pton6 s ≡ some b → length b ≡ 16

-- `struct socks5hdr`: version, command or reply, and the reserved byte or fragment number.
pub record Socks5Hdr : Type 0 where
  pub ver : ℕ
  pub cmd : ℕ
  pub rsv : ℕ

unfoldable pub socks5_hdr_put : ℕ → Socks5Hdr → Option (List ℕ)
socks5_hdr_put size hdr = if ltb size 3 then none else some (hdr.ver ∷ hdr.cmd ∷ hdr.rsv ∷ [])

-- The header with the number of bytes read.
unfoldable pub socks5_hdr_get : List ℕ → Option (Socks5Hdr × ℕ)
socks5_hdr_get (v ∷ c ∷ r ∷ rest) = some (record { ver = v; cmd = c; rsv = r }, 3)
socks5_hdr_get _ = none

-- `struct socks5addr`.
pub record Socks5Addr : Type 0 where
  pub addr : List ℕ
  pub port : ℕ

-- htobe16() and ntohs() on the bytes in memory.
unfoldable pub port_bytes : ℕ → List ℕ
port_bytes port = port / 256 % 256 ∷ port % 256 ∷ []

unfoldable pub addr_bytes : Inet → List ℕ → List ℕ
addr_bytes inet addr = elim (inet.pton4 addr) [
  | some in4 ↦ 1 ∷ in4
  | none ↦ elim (inet.pton6 addr) [
    | some in6 ↦ 4 ∷ in6
    | none ↦ 3 ∷ (length addr % 256) ∷ take (length addr % 256) addr
  ]
]

-- The size check counts the bytes that are then copied.
unfoldable pub socks5_addr_put : Inet → ℕ → Socks5Addr → Option (List ℕ)
unfolding addr_bytes port_bytes
socks5_addr_put inet size ad =
    let out = addr_bytes inet ad.addr ++ port_bytes ad.port in
    if ltb size (length out) then none else some out

-- The string in a char buffer.
unfoldable pub c_string : List ℕ → List ℕ
c_string [] = []
c_string (c ∷ s) = if c == 0 then [] else c ∷ c_string s

-- The port behind an address of `n` bytes in all.
pub get_port : List ℕ → ℕ → List ℕ → Option (Socks5Addr × ℕ)
get_port addr n (h ∷ l ∷ rest) = some (record { addr = addr; port = h * 256 + l }, n + 2)
get_port addr n _ = none

pub get_fixed : (List ℕ → List ℕ) → ℕ → List ℕ → Option (Socks5Addr × ℕ)
unfolding get_port
get_fixed ntop n rest =
    if ltb (length rest) n then none else get_port (ntop (take n rest)) (1 + n) (drop n rest)

pub get_domain : List ℕ → Option (Socks5Addr × ℕ)
unfolding get_port c_string
get_domain [] = none
get_domain (alen ∷ rest) =
    if ltb (length rest) alen
    then none
    else get_port (c_string (take alen rest)) (2 + alen) (drop alen rest)

unfoldable pub socks5_addr_get : Inet → List ℕ → Option (Socks5Addr × ℕ)
unfolding get_fixed get_domain
socks5_addr_get inet [] = none
socks5_addr_get inet (atype ∷ rest) =
    if atype == 1
    then get_fixed inet.ntop4 4 rest
    else (if atype == 4
        then get_fixed inet.ntop6 16 rest
        else (if atype == 3 then get_domain rest else none))
