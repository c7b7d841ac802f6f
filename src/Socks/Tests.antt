-- ===== src/Socks/Tests.antt =====
-- The laws of the SOCKS5 client at concrete inputs.
use nsproxy.Common.{
  map, ℕ, ◌≡◌, refl, sym, ap, ◌≢◌, ◌⊎◌, Bool, true, false, none, some, List, [], ◌∷◌, ◌++◌, arith,
  if◌then◌else◌, ◌===◌, length,
}
use nsproxy.Rules.Tests.{empty_conf, name_ab}
use nsproxy.Skutils.{count, bytes}
use nsproxy.Socks.Codec.{
  socks5_hdr_get, Inet, InetLaws, Socks5Addr, socks5_addr_put, socks5_addr_get,
}
use nsproxy.Socks.Codec.RoundTrip.{NoNul, canonical, addr_get-put}
use nsproxy.Socks.Handshake.{
  failed, send_method, ProxySocks, tcp_forward, Turn, Calls, all_events, assemble,
  socks_epcb_events,
}
use nsproxy.Socks.Handshake.Output.{Fits, rounds, sent_state, rounds_lem}
use nsproxy.Skutils.{SkInfo, skutils_send, skutils_recv}
use nsproxy.Socks.Handshake.{udp_forward, forwarding}
use nsproxy.Socks.Datagram.{socks_send, socks_recv, strip_header}
use nsproxy.Socks.Datagram.RoundTrip.{counted, socks_recv-send}
use nsproxy.Socks.Handshake.Phases.{Follows, events-Follows}

-- A resolver that knows one address: "a.b".
abbrev resolver : Inet
resolver = record {
  pton4 = λ s. if s === name_ab then some (10 ∷ 0 ∷ 0 ∷ 1 ∷ []) else none;
  pton6 = λ s. none;
  ntop4 = λ b. name_ab;
  ntop6 = λ b. [];
}

four_of :
    (found : Bool) (b : List ℕ)
    → (if found then some (10 ∷ 0 ∷ 0 ∷ 1 ∷ []) else none) ≡ some b
    → length b ≡ 4
four_of true b h = ap (λ o. length (elim o [ none ↦ [] | some c ↦ c ])) (sym h)
four_of false b h = cc

resolver-InetLaws : InetLaws resolver
resolver-InetLaws = record {
  pton4_size = λ s b h. four_of (s === name_ab) b h;
  pton6_size = λ s b h. cc;
}

abbrev target : Socks5Addr
target = record { addr = name_ab; port = 80 }

name_ab-NoNul : NoNul name_ab
name_ab-NoNul = ((λ e. omega arith), ((λ e. omega arith), ((λ e. omega arith), tt)))

target_bytes : List ℕ
target_bytes = 1 ∷ 10 ∷ 0 ∷ 0 ∷ 1 ∷ 0 ∷ 80 ∷ []

written : socks5_addr_put resolver 100 target ≡ some target_bytes
unfolding socks5_addr_put ◌===◌ target_bytes
written = refl

addr_get-put_example :
    socks5_addr_get resolver (target_bytes ++ (9 ∷ []))
    ≡ some (record { addr = canonical resolver name_ab; port = 80 }, length target_bytes)
addr_get-put_example =
    addr_get-put resolver 100 target target_bytes (9 ∷ []) resolver-InetLaws name_ab-NoNul
      (omega arith) (omega arith) written

abbrev fresh : ProxySocks
fresh = record {
  kind = tcp_forward;
  phase = send_method;
  hsbuff = [];
  events = 4;
  addr = name_ab;
  port = 80;
  relay = none;
}

fresh-Fits : Fits empty_conf fresh
fresh-Fits = record { user = omega arith; pass = omega arith; buff = omega arith }

message_of : assemble empty_conf resolver fresh ≡ some (5 ∷ 1 ∷ 0 ∷ [])
unfolding assemble
message_of = refl

rounds_lem_example :
    rounds empty_conf resolver (λ c. 0) (2 ∷ 1 ∷ []) fresh
    ≡ some (5 ∷ 1 ∷ 0 ∷ [], sent_state (λ c. 0) fresh)
rounds_lem_example =
    rounds_lem empty_conf resolver (λ c. 0) (2 ∷ 1 ∷ []) fresh (5 ∷ 1 ∷ 0 ∷ []) message_of
      (omega arith) (omega arith, (omega arith, tt)) refl

abbrev calls : Calls
calls = record { sent = count 3; first = bytes []; taken = bytes []; ctl = λ c. 0 }

events-Follows_example :
    (t : Turn) × (socks_epcb_events empty_conf resolver calls 4 fresh ≡ some t)
    × Follows send_method t.self.phase
    × ((t.self.phase ≢ failed) ⊎ (t.user ≡ some all_events))
events-Follows_example =
    events-Follows empty_conf resolver calls 4 fresh resolver-InetLaws fresh-Fits

abbrev relayed : ProxySocks
relayed = record fresh { kind = udp_forward; phase = forwarding }

abbrev idle : SkInfo
idle = record { nsent = 0; nread = 0 }

-- A datagram that is too short.
short_drops : strip_header resolver (0 ∷ 0 ∷ []) ≡ none
unfolding strip_header socks5_hdr_get
short_drops = refl

socks_recv-send_example :
    (wire : List ℕ) × (socks_send resolver (λ s. count (length s)) idle (42 ∷ []) relayed
      ≡ some (skutils_send idle (count (length wire))))
    × (socks_recv resolver idle (map bytes ((0 ∷ 0 ∷ []) ∷ []) ++ (bytes wire ∷ [])) relayed
        ≡ some
            ((skutils_recv (counted idle ((0 ∷ 0 ∷ []) ∷ [])) (bytes wire)).0, bytes (42 ∷ []), []))
socks_recv-send_example =
    socks_recv-send resolver relayed (λ s. count (length s)) idle (42 ∷ []) ((0 ∷ 0 ∷ []) ∷ []) []
      resolver-InetLaws name_ab-NoNul (omega arith) refl refl (short_drops, tt)
