-- ===== src/Socks/Codec/RoundTrip.antt =====
-- What src/socks.c reads back of an address that it wrote, and how its reader treats partial input.
use nsproxy.Common.{
  ℕ, ◌+◌, ◌*◌, ◌/◌, ◌%◌, ◌^◌, ◌<◌, ◌≡◌, refl, ap, ◌≢◌, inl, inr, none, some, List, [], ◌∷◌, ◌++◌,
  append_assoc, arith, ltb, Bool-cases, Option-cases, ltb-false, ==_false, length, All,
  length-append, take-append, drop-append, take_all,
}
use nsproxy.Socks.Codec.{
  Inet, InetLaws, Socks5Addr, port_bytes, addr_bytes, socks5_addr_put, c_string, get_port,
  get_fixed, get_domain, socks5_addr_get,
}

abbrev pub NoNul : List ℕ → Type 0
NoNul = All (λ c. c ≢ 0)

-- The address as the reader prints it: one that inet_pton() accepts comes back through inet_ntop().
abbrev pub canonical : Inet → List ℕ → List ℕ
canonical inet addr = elim (inet.pton4 addr) [
  | some in4 ↦ inet.ntop4 in4
  | none ↦ elim (inet.pton6 addr) [ some in6 ↦ inet.ntop6 in6 | none ↦ addr ]
]

c_string-NoNul : (s : List ℕ) → NoNul s → c_string s ≡ s
unfolding c_string
c_string-NoNul [] h = refl
c_string-NoNul (c ∷ s) h = rw (==_false c 0 h.0) (ap (◌∷◌ c) (c_string-NoNul s h.1))

port_back : (port : ℕ) → port < 2 ^ 16 → port / 256 % 256 * 256 + port % 256 ≡ port
port_back port h = omega arith

get_fixed-append :
    (ntop : List ℕ → List ℕ) (n : ℕ) (b : List ℕ) (port : ℕ) (rest : List ℕ)
    → length b ≡ n
    → port < 2 ^ 16
    → get_fixed ntop n (b ++ (port_bytes port ++ rest))
      ≡ some (record { addr = ntop b; port = port }, 1 + n + 2)
unfolding get_fixed get_port port_bytes
get_fixed-append ntop n b port rest size h =
    let len = length-append b (port_bytes port ++ rest) in
    rw (ltb-false (length (b ++ (port_bytes port ++ rest))) n (omega (arith, len)), ← size)
      (rw
        (
          take-append b (port_bytes port ++ rest),
          drop-append b (port_bytes port ++ rest),
          port_back port h,
        )
        refl)

get_domain-append :
    (s : List ℕ) (port : ℕ) (rest : List ℕ)
    → NoNul s
    → port < 2 ^ 16
    → get_domain (length s ∷ (s ++ (port_bytes port ++ rest)))
      ≡ some (record { addr = s; port = port }, 2 + length s + 2)
unfolding get_domain get_port port_bytes
get_domain-append s port rest nn h =
    let len = length-append s (port_bytes port ++ rest) in
    rw (
      ltb-false (length (s ++ (port_bytes port ++ rest))) (length s) (omega (arith, len)),
      take-append s (port_bytes port ++ rest),
      drop-append s (port_bytes port ++ rest),
      c_string-NoNul s nn,
      port_back port h,
    )

-- What reading the bytes of an address and a port gives.
abbrev Back : Inet → List ℕ → ℕ → List ℕ → Type 0
Back inet addr port rest =
    socks5_addr_get inet (addr_bytes inet addr ++ (port_bytes port ++ rest))
    ≡ some (record { addr = canonical inet addr; port = port }, length (addr_bytes inet addr) + 2)

module _ (inet : Inet) (laws : InetLaws inet) (addr : List ℕ) (port : ℕ) (rest : List ℕ)
    (small : port < 2 ^ 16) where
  Back-inet4 : (b : List ℕ) → inet.pton4 addr ≡ some b → Back inet addr port rest
  unfolding socks5_addr_get
  Back-inet4 b e =
      let written : addr_bytes inet addr ≡ 1 ∷ b = unfold addr_bytes in rw (e, addr_bytes) refl in
      let text : canonical inet addr ≡ inet.ntop4 b = rw (e, canonical) refl in
      let size = laws.pton4_size addr b e in
      rw (written, text, get_fixed-append inet.ntop4 4 b port rest size small, size) refl

  Back-inet6 :
      (b : List ℕ) → inet.pton4 addr ≡ none → inet.pton6 addr ≡ some b → Back inet addr port rest
  unfolding socks5_addr_get
  Back-inet6 b e f =
      let written : addr_bytes inet addr ≡ 4 ∷ b =
        unfold addr_bytes in rw (e, f, addr_bytes) refl in
      let text : canonical inet addr ≡ inet.ntop6 b = rw (e, f, canonical) refl in
      let size = laws.pton6_size addr b f in
      rw (written, text, get_fixed-append inet.ntop6 16 b port rest size small, size) refl

  Back-domain :
      inet.pton4 addr ≡ none
      → inet.pton6 addr ≡ none
      → NoNul addr
      → length addr < 256
      → Back inet addr port rest
  unfolding socks5_addr_get
  Back-domain e f nn short =
      let whole : length addr % 256 ≡ length addr = omega arith in
      let written : addr_bytes inet addr ≡ 3 ∷ length addr ∷ addr =
        unfold addr_bytes in
        rw (e, f, addr_bytes, whole, take_all (length addr) addr (omega arith)) refl in
      let text : canonical inet addr ≡ addr = rw (e, f, canonical) refl in
      rw (written, text, get_domain-append addr port rest nn small)
        (ap (λ n. some (record { addr = addr; port = port }, n)) (omega arith))

  read-Back : NoNul addr → length addr < 256 → Back inet addr port rest
  read-Back nn short = elim (Option-cases (inet.pton4 addr)) [
    | inr (b, e) ↦ Back-inet4 b e
    | inl e ↦ elim (Option-cases (inet.pton6 addr)) [
      | inr (b, f) ↦ Back-inet6 b e f
      | inl f ↦ Back-domain e f nn short
    ]
  ]

put_bytes :
    (inet : Inet) (size : ℕ) (ad : Socks5Addr) (out : List ℕ)
    → socks5_addr_put inet size ad ≡ some out
    → addr_bytes inet ad.addr ++ port_bytes ad.port ≡ out
unfolding socks5_addr_put
put_bytes inet size ad out e =
    elim (Bool-cases (ltb size (length (addr_bytes inet ad.addr ++ port_bytes ad.port)))) [
      | inl small ↦ cc (e, small)
      | inr room ↦ ground arith
    ]

length-port_bytes : (p : ℕ) → length (port_bytes p) ≡ 2
unfolding port_bytes
length-port_bytes p = refl

-- An address that was written reads back, whatever follows it: the port is the same, the address is
-- the canonical text, and the reader takes exactly the bytes that were written.
pub addr_get-put :
    (inet : Inet) (size : ℕ) (ad : Socks5Addr) (out rest : List ℕ)
    → InetLaws inet
    → NoNul ad.addr
    → length ad.addr < 256
    → ad.port < 2 ^ 16
    → socks5_addr_put inet size ad ≡ some out
    → socks5_addr_get inet (out ++ rest)
      ≡ some (record { addr = canonical inet ad.addr; port = ad.port }, length out)
addr_get-put inet size ad out rest laws nn short small e =
    let p = put_bytes inet size ad out e in
    rw
      (
        ← p,
        append_assoc (addr_bytes inet ad.addr) (port_bytes ad.port) rest,
        length-append,
        length-port_bytes ad.port,
      )
      (read-Back inet laws ad.addr ad.port rest small nn short)
