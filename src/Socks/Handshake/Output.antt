-- ===== src/Socks/Handshake/Output.antt =====
-- The sending half of the SOCKS5 handshake of src/socks.c.
use nsproxy.Common.{
  ℕ, ◌+◌, ◌%◌, ◌≤◌, ◌<◌, ◌≡◌, refl, ap, ◌∙◌, inl, inr, true, false, Option, none, some, List, [],
  ◌∷◌, ◌++◌, append-nil, arith, ◌==◌, Bool-cases, Option-cases, ltb-false, length, take, drop, All,
  length-append, length-take, length-drop, take-append-drop, take_all,
}
use nsproxy.Rules.Conf.{NspConf}
use nsproxy.Skutils.{count, Ctl, epollin, evupd, skutils_evctl}
use nsproxy.Socks.Codec.{
  Inet, InetLaws, Socks5Addr, socks5_hdr_put, addr_bytes, port_bytes, socks5_addr_put,
}
use nsproxy.Socks.Handshake.{
  Phase, send_method, send_auth, send_request, ProxySocks, request_message, phase_message, assemble,
  after_send, sent_phase, socks_handshake_output, capacity, quiet,
}

-- What the configuration and the buffer satisfy: names and passwords of at most 255 bytes, which
-- main() checks, and a buffer within its capacity.
pub record Fits (conf : NspConf) (self : ProxySocks) : Type 0 where
  pub user : length conf.proxyuser ≤ 255
  pub pass : length conf.proxypass ≤ 255
  pub buff : length self.hsbuff ≤ capacity

pub addr_bytes_size :
    (inet : Inet) (addr : List ℕ)
    → InetLaws inet
    → length addr ≤ 255
    → length (addr_bytes inet addr) ≤ 257
addr_bytes_size inet addr laws short = elim (Option-cases (inet.pton4 addr)) [
  | inr (b, e) ↦ unfold addr_bytes in rw (e, addr_bytes) (omega (arith, laws.pton4_size addr b e))
  | inl e ↦ elim (Option-cases (inet.pton6 addr)) [
    | inr (b, f) ↦
        unfold addr_bytes in rw (e, f, addr_bytes) (omega (arith, laws.pton6_size addr b f))
    | inl f ↦
        unfold addr_bytes in
        rw (e, f, addr_bytes) (omega (arith, length-take (length addr % 256) addr))
  ]
]

abbrev Ready : Option (List ℕ) → Type 0
Ready none = ⊥
Ready (some s) = length s ≤ capacity

pub put_room :
    (inet : Inet) (size : ℕ) (ad : Socks5Addr)
    → length (addr_bytes inet ad.addr) + 2 ≤ size
    → (out : List ℕ) × (socks5_addr_put inet size ad ≡ some out) × (length out ≤ size)
unfolding socks5_addr_put port_bytes
put_room inet size ad h =
    let len = length-append (addr_bytes inet ad.addr) (port_bytes ad.port) in
    (
      addr_bytes inet ad.addr ++ port_bytes ad.port,
      rw
          (ltb-false size (length (addr_bytes inet ad.addr ++ port_bytes ad.port))
            (omega (arith, len)))
          refl,
      omega (arith, len),
    )

request-Ready :
    (inet : Inet) (self : ProxySocks) → InetLaws inet → Ready (request_message inet self)
unfolding request_message socks5_hdr_put
request-Ready inet self laws =
    let ad : Socks5Addr = record { addr = take 255 self.addr; port = self.port } in
    let (out, e, size) = put_room inet 1021 ad (
      omega (
        arith,
        addr_bytes_size inet (take 255 self.addr) laws (omega (arith, length-take 255 self.addr)),
      )) in
    rw (e, request_message) (omega (arith, size))

message-Ready :
    (conf : NspConf) (inet : Inet) (p : Phase) (self : ProxySocks)
    → InetLaws inet
    → Fits conf self
    → Ready (phase_message conf inet p self)
unfolding phase_message
message-Ready conf inet send_method self laws h = ground arith
message-Ready conf inet send_auth self laws h = omega (
  arith,
  h.user,
  h.pass,
  length-append conf.proxyuser (length conf.proxypass % 256 ∷ conf.proxypass),
)
message-Ready conf inet send_request self laws h = request-Ready inet self laws
message-Ready conf inet p self laws h = omega arith

-- The message to send is there, and within the buffer: neither assertion fails and no byte is written
-- behind the buffer. The name and the password have at most 255 bytes, what is left of an earlier
-- message is within the buffer, and inet_pton() gives 4 or 16 bytes.
pub assemble-Fits :
    (conf : NspConf) (inet : Inet) (self : ProxySocks)
    → InetLaws inet
    → Fits conf self
    → (s : List ℕ) × (assemble conf inet self ≡ some s) × (length s ≤ capacity)
unfolding assemble
assemble-Fits conf inet self laws h = elim (Bool-cases (length self.hsbuff == 0)) [
  | inl first ↦ rw first (
      out (phase_message conf inet self.phase self)
        (message-Ready conf inet self.phase self laws h))
  | inr again ↦ rw again (self.hsbuff, refl, h.buff)
]
  where
    out : (o : Option (List ℕ)) → Ready o → (s : List ℕ) × (o ≡ some s) × (length s ≤ capacity)
    out none r = absurd r
    out (some s) r = (s, refl, r)

-- Calls of socks_handshake_output() in a row, each with what send() took: the bytes sent in all, and
-- the state at the end.
pub rounds : NspConf → Inet → (Ctl → ℕ) → List ℕ → ProxySocks → Option (List ℕ × ProxySocks)
rounds conf inet ctl [] self = some ([], self)
rounds conf inet ctl (n ∷ ns) self = elim (assemble conf inet self) [
  | none ↦ none
  | some buff ↦ elim (socks_handshake_output conf inet ctl (count n) self) [
    | none ↦ none
    | some t ↦ elim (rounds conf inet ctl ns t.self) [
      | none ↦ none
      | some (sent, last) ↦ some (take n buff ++ sent, last)
    ]
  ]
]

abbrev pub sum : List ℕ → ℕ
sum [] = 0
sum (n ∷ ns) = n + sum ns

abbrev pub sent_state : (Ctl → ℕ) → ProxySocks → ProxySocks
sent_state ctl self = record self {
  hsbuff = [];
  phase = sent_phase self.phase;
  events = (skutils_evctl ctl self.events epollin evupd).events;
}

output_done :
    (conf : NspConf) (inet : Inet) (ctl : Ctl → ℕ) (n : ℕ) (self : ProxySocks) (message : List ℕ)
    → assemble conf inet self ≡ some message
    → length (drop n message) == 0 ≡ true
    → socks_handshake_output conf inet ctl (count n) self ≡ some (quiet (sent_state ctl self))
unfolding socks_handshake_output after_send
output_done conf inet ctl n self message e done =
    rw (e, socks_handshake_output, done, after_send) refl

output_left :
    (conf : NspConf) (inet : Inet) (ctl : Ctl → ℕ) (n : ℕ) (self : ProxySocks) (message : List ℕ)
    → assemble conf inet self ≡ some message
    → length (drop n message) == 0 ≡ false
    → socks_handshake_output conf inet ctl (count n) self
      ≡ some (quiet (record self { hsbuff = drop n message }))
unfolding socks_handshake_output after_send
output_left conf inet ctl n self message e left =
    rw (e, socks_handshake_output, left, after_send) refl

rounds_step :
    (conf : NspConf) (inet : Inet) (ctl : Ctl → ℕ) (n : ℕ) (ns : List ℕ)
    (self next last : ProxySocks) (message sent : List ℕ)
    → assemble conf inet self ≡ some message
    → socks_handshake_output conf inet ctl (count n) self ≡ some (quiet next)
    → rounds conf inet ctl ns next ≡ some (sent, last)
    → rounds conf inet ctl (n ∷ ns) self ≡ some (take n message ++ sent, last)
unfolding rounds
rounds_step conf inet ctl n ns self next last message sent e f g = rw (e, f, g, rounds) refl

again :
    (conf : NspConf) (inet : Inet) (self : ProxySocks) (m : List ℕ)
    → length m == 0 ≡ false
    → assemble conf inet (record self { hsbuff = m }) ≡ some m
unfolding assemble
again conf inet self m left = rw left refl

rounds_nil :
    (conf : NspConf) (inet : Inet) (ctl : Ctl → ℕ) (self : ProxySocks)
    → rounds conf inet ctl [] self ≡ some ([], self)
unfolding rounds
rounds_nil conf inet ctl self = refl

none_left : (ns : List ℕ) → All (λ n. 0 < n) ns → sum ns ≡ 0 → ns ≡ []
none_left [] pos e = refl
none_left (n ∷ ns) (p, pos) e = absurd (omega arith)

-- However send() splits a message, its bytes go out once and in order, and the phase moves on with
-- the last of them, never earlier. The message is not empty, and the counts that send() returns are
-- positive and add up to its length.
pub rounds_lem :
    (conf : NspConf) (inet : Inet) (ctl : Ctl → ℕ) (ns : List ℕ) (self : ProxySocks)
    (message : List ℕ)
    → assemble conf inet self ≡ some message
    → 0 < length message
    → All (λ n. 0 < n) ns
    → sum ns ≡ length message
    → rounds conf inet ctl ns self ≡ some (message, sent_state ctl self)
rounds_lem conf inet ctl [] self message e h pos total = absurd (omega arith)
rounds_lem conf inet ctl (n ∷ ns) self message e h (p, pos) total =
    let parts = take-append-drop n message in
    let sizes = length-drop n message in
    elim (Bool-cases (length (drop n message) == 0))
      as (λ _. rounds conf inet ctl (n ∷ ns) self ≡ some (message, sent_state ctl self)) [
        | inl done ↦ rw (none_left ns pos (ground arith)) (
            sent_parts [] (append-nil (take n message) ∙ take_all n message (ground arith)) (
              rounds_step conf inet ctl n [] self (sent_state ctl self) (sent_state ctl self)
                message [] e (output_done conf inet ctl n self message e done)
                (rounds_nil conf inet ctl (sent_state ctl self))))
        | inr left ↦
            let rest =
              rounds_lem conf inet ctl ns (record self { hsbuff = drop n message }) (drop n message)
                (again conf inet self (drop n message) left) (ground arith) pos (ground arith) in
            sent_parts (drop n message) parts (
              rounds_step conf inet ctl n ns self (record self { hsbuff = drop n message })
                (sent_state ctl self) message (drop n message) e
                (output_left conf inet ctl n self message e left) rest)
      ]
  where
    sent_parts :
        {o : Option (List ℕ × ProxySocks)} (m : List ℕ)
        → take n message ++ m ≡ message
        → o ≡ some (take n message ++ m, sent_state ctl self)
        → o ≡ some (message, sent_state ctl self)
    sent_parts m joined run = run ∙ ap (λ a. some (a, sent_state ctl self)) joined
