-- ===== src/Socks/Datagram/RoundTrip.antt =====
-- Datagrams through src/socks.c: what one side sends, the other side receives.
use nsproxy.Common.{
  ℕ, suc, ◌+◌, ◌^◌, ◌<◌, ◌≡◌, refl, ap, ◌∙◌, Option, none, some, List, [], ◌∷◌, ◌++◌, map, arith,
  length, take, drop, All, length-take, drop-append,
}
use nsproxy.Skutils.{Ret, errno, Recv, bytes, failure, SkInfo, skutils_send, skutils_recv}
use nsproxy.Socks.Codec.{
  Inet, InetLaws, Socks5Addr, socks5_hdr_put, socks5_hdr_get, socks5_addr_put,
}
use nsproxy.Socks.Codec.RoundTrip.{NoNul, addr_get-put}
use nsproxy.Socks.Handshake.{Kind, Phase, udp_forward, ProxySocks, not_ready, forwarding}
use nsproxy.Socks.Handshake.Output.{addr_bytes_size, put_room}
use nsproxy.Socks.Datagram.{
  udp_header, send_by_kind, socks_send, strip_header, datagram_loop, recv_by_kind, socks_recv,
}

abbrev target : ProxySocks → Socks5Addr
target self = record { addr = take 255 self.addr; port = self.port }

header_some :
    (inet : Inet) (self : ProxySocks)
    → InetLaws inet
    → (ad : List ℕ) × (socks5_addr_put inet 509 (target self) ≡ some ad)
      × (udp_header inet self ≡ some (0 ∷ 0 ∷ 0 ∷ ad))
unfolding udp_header socks5_hdr_put
header_some inet self laws =
    let (ad, e, size) = put_room inet 509 (target self) (
      omega (
        arith,
        addr_bytes_size inet (take 255 self.addr) laws (omega (arith, length-take 255 self.addr)),
      )) in
    (ad, e, rw (e, udp_header) refl)

strip-header :
    (inet : Inet) (self : ProxySocks) (ad payload : List ℕ)
    → InetLaws inet
    → NoNul (take 255 self.addr)
    → self.port < 2 ^ 16
    → socks5_addr_put inet 509 (target self) ≡ some ad
    → strip_header inet (0 ∷ 0 ∷ 0 ∷ (ad ++ payload)) ≡ some payload
unfolding strip_header socks5_hdr_get
strip-header inet self ad payload laws clean port e =
    let three : 3 + length ad ≡ suc (suc (suc (length ad))) = omega arith in
    rw
      (
        addr_get-put inet 509 (target self) ad payload laws clean
            (omega (arith, length-take 255 self.addr)) port e,
        strip_header,
      )
      (ap (λ n. some (drop n (0 ∷ 0 ∷ 0 ∷ (ad ++ payload)))) three
        ∙ ap some (drop-append ad payload))

-- The counter after some datagrams that are dropped.
abbrev pub counted : SkInfo → List (List ℕ) → SkInfo
counted info [] = info
counted info (s ∷ rest) = counted (record info { nread = info.nread + length s }) rest

loop_skips :
    (inet : Inet) (bad : List (List ℕ)) (info : SkInfo) (s payload : List ℕ) (rest : List Recv)
    → All (λ b. strip_header inet b ≡ none) bad
    → strip_header inet s ≡ some payload
    → datagram_loop inet info (map bytes bad ++ (bytes s ∷ rest))
      ≡ some ((skutils_recv (counted info bad) (bytes s)).0, bytes payload, rest)
unfolding datagram_loop skutils_recv
loop_skips inet [] info s payload rest h e = rw (e, datagram_loop) refl
loop_skips inet (b ∷ bad) info s payload rest (miss, h) e =
    rw (miss, datagram_loop)
      (loop_skips inet bad (record info { nread = info.nread + length b }) s payload rest h e)

send_ready :
    (inet : Inet) (self : ProxySocks) (send : List ℕ → Ret) (info : SkInfo) (payload ad : List ℕ)
    (p : Phase) (k : Kind)
    → p ≡ forwarding
    → k ≡ udp_forward
    → udp_header inet self ≡ some ad
    → (elim (not_ready p) as (λ _. Option (SkInfo × Ret)) [
      | some e ↦ some (info, errno e)
      | none ↦ send_by_kind inet send info payload k self
    ])
      ≡ some (skutils_send info (send (ad ++ payload)))
send_ready inet self send info payload ad p k e f g = rw (e, f, g, send_by_kind) refl

recv_ready :
    (inet : Inet) (info : SkInfo) (arrivals : List Recv) (p : Phase) (k : Kind)
    → p ≡ forwarding
    → k ≡ udp_forward
    → (elim (not_ready p) as (λ _. Option (SkInfo × Recv × List Recv)) [
      | some e ↦ some (info, failure e, arrivals)
      | none ↦ recv_by_kind inet info k arrivals
    ])
      ≡ datagram_loop inet info arrivals
recv_ready inet info arrivals p k e f = rw (e, f) refl

-- On a relayed UDP socket, what socks_send() gives to the socket comes back out of socks_recv() as the
-- same data, behind any number of datagrams that are dropped; the rest of the arrivals stays. The
-- target, cut to 255 bytes, has no NUL, the port is below 2 ^ 16, and the dropped ones do not parse or
-- are fragments. `wire` is the message that the socket is given.
pub socks_recv-send :
    (inet : Inet) (self : ProxySocks) (send : List ℕ → Ret) (info : SkInfo) (payload : List ℕ)
    (bad : List (List ℕ)) (rest : List Recv)
    → InetLaws inet
    → NoNul (take 255 self.addr)
    → self.port < 2 ^ 16
    → self.kind ≡ udp_forward
    → self.phase ≡ forwarding
    → All (λ b. strip_header inet b ≡ none) bad
    → (wire : List ℕ) × (socks_send inet send info payload self
        ≡ some (skutils_send info (send wire)))
      × (socks_recv inet info (map bytes bad ++ (bytes wire ∷ rest)) self
          ≡ some ((skutils_recv (counted info bad) (bytes wire)).0, bytes payload, rest))
unfolding socks_send socks_recv
socks_recv-send inet self send info payload bad rest laws clean port kind phase h =
    let (ad, e, f) = header_some inet self laws in
    (
      0 ∷ 0 ∷ 0 ∷ (ad ++ payload),
      send_ready inet self send info payload (0 ∷ 0 ∷ 0 ∷ ad) self.phase self.kind phase kind f,
      recv_ready inet info (map bytes bad ++ (bytes (0 ∷ 0 ∷ 0 ∷ (ad ++ payload)) ∷ rest))
            self.phase self.kind phase kind
          ∙ loop_skips inet bad info (0 ∷ 0 ∷ 0 ∷ (ad ++ payload)) payload rest h
              (strip-header inet self ad payload laws clean port e),
    )
