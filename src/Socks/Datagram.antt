-- ===== src/Socks/Datagram.antt =====
-- socks_send() and socks_recv() of src/socks.c. What the socket does is an argument. The buffer that
-- the user gives to socks_recv() is as long as what recv() gives.
pub mod RoundTrip
use nsproxy.Common.{
  ℕ, zero, suc, ◌+◌, ◌-◌, ◌*◌, ◌/◌, ◌%◌, ◌^◌, ◌≤◌, ◌<◌, bit_and, bit_or, ◌≡◌, refl, sym, ap, ◌∙◌,
  ◌≢◌, ◌↔◌, ◌⊎◌, inl, inr, Bool, true, false, not, ◌&&◌, ◌||◌, Option, none, some, List, [], ◌∷◌,
  ◌++◌, map, reverse, append-nil, append_assoc, arith, ltb, leb, ◌==◌, if◌then◌else◌, ltb→lt,
  lt→ltb, leb→le, ==_iff, ◌===◌, ===→eq, ===_refl, Bool-cases, Option-cases, ||_cases, ||_right,
  &&_parts, absorb, if_cases, leb-false, ltb-false, ==_false, le_of_ltb, lt_of_leb, length,
  get_elem?, get_or, take, drop, replicate, any, All, length-append, length-reverse,
  length-replicate, length-take, length-drop, take-append-drop, take-append, drop-append, take_all,
  get_elem?-append, get_elem?_below, any-append, All-append, any_mem, Some, any_iff, tail_eq,
}
use nsproxy.Skutils.{Ret, count, errno, Recv, bytes, failure, SkInfo, skutils_send, skutils_recv}
use nsproxy.Socks.Codec.{
  Inet, Socks5Hdr, Socks5Addr, socks5_hdr_put, socks5_hdr_get, socks5_addr_put, socks5_addr_get,
}
use nsproxy.Socks.Handshake.{Kind, tcp_forward, udp_forward, udp_associate, ProxySocks, not_ready}

-- The header in front of the data, in a buffer of 512 bytes. The source does not test the results;
-- `none` stands for a -1 that it would add to the offset.
unfoldable pub udp_header : Inet → ProxySocks → Option (List ℕ)
udp_header inet self = elim (socks5_hdr_put 512 (record { ver = 0; cmd = 0; rsv = 0 })) [
  | none ↦ none
  | some hdr ↦
      elim (socks5_addr_put inet (512 - length hdr)
        (record { addr = take 255 self.addr; port = self.port })) [
          | none ↦ none
          | some ad ↦ some (hdr ++ ad)
        ]
]

-- `send` answers send() or sendmsg() for the bytes of the message.
abbrev pub send_by_kind :
    Inet → (List ℕ → Ret) → SkInfo → List ℕ → Kind → ProxySocks → Option (SkInfo × Ret)
send_by_kind inet send info payload udp_forward self = elim (udp_header inet self) [
  | none ↦ none
  | some header ↦ some (skutils_send info (send (header ++ payload)))
]
send_by_kind inet send info payload _ self = some (skutils_send info (send payload))

unfoldable pub socks_send :
    Inet → (List ℕ → Ret) → SkInfo → List ℕ → ProxySocks → Option (SkInfo × Ret)
socks_send inet send info payload self = elim (not_ready self.phase) [
  | some e ↦ some (info, errno e)
  | none ↦ send_by_kind inet send info payload self.kind self
]

-- The data of a datagram, or `none` for one that is dropped.
unfoldable pub strip_header : Inet → List ℕ → Option (List ℕ)
strip_header inet s = elim (socks5_hdr_get s) [
  | none ↦ none
  | some (hdr, n) ↦ elim (socks5_addr_get inet (drop n s)) [
    | none ↦ none
    | some (ad, m) ↦ if not (hdr.rsv == 0) then none else some (drop (n + m) s)
  ]
]

-- The loop over what the calls of recv() give, until one is returned; with what is left. `none` means
-- that the loop asks for more.
unfoldable pub datagram_loop : Inet → SkInfo → List Recv → Option (SkInfo × Recv × List Recv)
datagram_loop inet info [] = none
datagram_loop inet info (failure e ∷ rest) = some (info, failure e, rest)
datagram_loop inet info (bytes s ∷ rest) =
    let again = datagram_loop inet (skutils_recv info (bytes s)).0 rest in
    elim (strip_header inet s) [
      | none ↦ again
      | some payload ↦ some ((skutils_recv info (bytes s)).0, bytes payload, rest)
    ]

abbrev pub recv_by_kind : Inet → SkInfo → Kind → List Recv → Option (SkInfo × Recv × List Recv)
recv_by_kind inet info udp_forward arrivals = datagram_loop inet info arrivals
recv_by_kind inet info _ [] = none
recv_by_kind inet info _ (r ∷ rest) = some ((skutils_recv info r).0, r, rest)

unfoldable pub socks_recv :
    Inet → SkInfo → List Recv → ProxySocks → Option (SkInfo × Recv × List Recv)
socks_recv inet info arrivals self = elim (not_ready self.phase) [
  | some e ↦ some (info, failure e, arrivals)
  | none ↦ recv_by_kind inet info self.kind arrivals
]
