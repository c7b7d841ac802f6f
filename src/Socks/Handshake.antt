-- ===== src/Socks/Handshake.antt =====
-- The SOCKS5 handshake of src/socks.c as a state machine: socks_handshake_output(),
-- socks_handshake_input() and socks_epcb_events(), with socks_shutdown(), socks_send() and socks_recv()
-- before the handshake is done. What a system call returns is an argument. `hsbuff` holds the bytes
-- in use of the buffer; the freed buffer is the empty list. A failed assertion is `none`.
pub mod Output
pub mod Phases
use nsproxy.Common.{
  ℕ, zero, suc, ◌+◌, ◌-◌, ◌*◌, ◌/◌, ◌%◌, ◌^◌, ◌≤◌, ◌<◌, bit_and, bit_or, ◌≡◌, refl, sym, ap, ◌∙◌,
  ◌≢◌, ◌↔◌, ◌⊎◌, inl, inr, Bool, true, false, not, ◌&&◌, ◌||◌, Option, none, some, List, [], ◌∷◌,
  ◌++◌, map, reverse, append-nil, append_assoc, arith, ltb, leb, ◌==◌, if◌then◌else◌, ltb→lt,
  lt→ltb, leb→le, ==_iff, ◌===◌, ===→eq, ===_refl, Bool-cases, Option-cases, ||_cases, ||_right,
  &&_parts, absorb, if_cases, leb-false, ltb-false, ==_false, le_of_ltb, lt_of_leb, length,
  get_elem?, get_or, take, drop, replicate, any, All, length-append, length-reverse,
  length-replicate, length-take, length-drop, take-append-drop, take-append, drop-append, take_all,
  get_elem?-append, get_elem?_below, any-append, All-append, any_mem, Some, any_iff, tail_eq,
}
use nsproxy.Rules.Conf.{NspConf}
use nsproxy.Skutils.{
  eagain, econnaborted, einprogress, Ret, count, errno, Recv, bytes, failure, epollin, epollout,
  epollerr, Ctl, evupd, skutils_evctl,
}
use nsproxy.Socks.Codec.{
  Inet, Socks5Hdr, Socks5Addr, socks5_hdr_put, socks5_hdr_get, socks5_addr_put, socks5_addr_get,
}

pub data Phase : Type 0 where
  failed send_method recv_method send_auth recv_auth send_request recv_reply forwarding : Phase

pub data Kind : Type 0 where
  tcp_forward udp_forward udp_associate : Kind

-- SOCKS_HS_BUFF.
abbrev pub capacity : ℕ
capacity = 1024

-- The fields of `struct proxy_socks` that the handshake reads or sets.
pub record ProxySocks : Type 0 where
  pub kind : Kind
  pub phase : Phase
  pub hsbuff : List ℕ
  pub events : ℕ
  pub addr : List ℕ
  pub port : ℕ
  pub relay : Option Socks5Addr

-- A handler's new state, and the events that it passes to `userev`, if it calls that.
pub record Turn : Type 0 where
  pub self : ProxySocks
  pub user : Option ℕ

abbrev pub quiet : ProxySocks → Turn
quiet self = record { self = self; user = none }

-- EPOLLIN | EPOLLOUT | EPOLLERR
abbrev pub all_events : ℕ
all_events = 13

abbrev pub fail : ProxySocks → Turn
fail self = record { self = record self { phase = failed }; user = some all_events }

abbrev pub method_message : NspConf → List ℕ
method_message conf = if length conf.proxyuser == 0 then 5 ∷ 1 ∷ 0 ∷ [] else 5 ∷ 2 ∷ 0 ∷ 2 ∷ []

abbrev pub auth_message : NspConf → List ℕ
auth_message conf =
    1
    ∷ length conf.proxyuser % 256
    ∷ (conf.proxyuser ++ (length conf.proxypass % 256 ∷ conf.proxypass))

abbrev pub command_of : Kind → ℕ
command_of tcp_forward = 1
command_of udp_forward = 3
command_of udp_associate = 3

-- snprintf() into 256 bytes cuts the address at 255; each part is asserted to fit.
pub request_message : Inet → ProxySocks → Option (List ℕ)
request_message inet self =
    elim (socks5_hdr_put capacity (record { ver = 5; cmd = command_of self.kind; rsv = 0 })) [
      | none ↦ none
      | some hdr ↦
          elim (socks5_addr_put inet (capacity - length hdr)
            (record { addr = take 255 self.addr; port = self.port })) [
              | none ↦ none
              | some ad ↦ some (hdr ++ ad)
            ]
    ]

pub phase_message : NspConf → Inet → Phase → ProxySocks → Option (List ℕ)
unfolding request_message
phase_message conf inet send_method self = some (method_message conf)
phase_message conf inet send_auth self = some (auth_message conf)
phase_message conf inet send_request self = request_message inet self
phase_message conf inet _ self = some []

-- The buffer is filled on the first call in a phase.
unfoldable pub assemble : NspConf → Inet → ProxySocks → Option (List ℕ)
unfolding phase_message
assemble conf inet self =
    if length self.hsbuff == 0 then phase_message conf inet self.phase self else some self.hsbuff

abbrev pub sent_phase : Phase → Phase
sent_phase send_method = recv_method
sent_phase send_auth = recv_auth
sent_phase send_request = recv_reply
sent_phase p = p

-- What follows send(), by its result.
pub after_send : (Ctl → ℕ) → Ret → ProxySocks → Turn
after_send ctl (errno e) self = if e == eagain then quiet self else fail self
after_send ctl (count n) self =
    let rest = drop n self.hsbuff in
    if length rest == 0
    then quiet (record self {
      hsbuff = [];
      phase = sent_phase self.phase;
      events = (skutils_evctl ctl self.events epollin evupd).events;
    })
    else quiet (record self { hsbuff = rest })

unfoldable pub socks_handshake_output : NspConf → Inet → (Ctl → ℕ) → Ret → ProxySocks → Option Turn
unfolding assemble after_send
socks_handshake_output conf inet ctl sent self = elim (assemble conf inet self) [
  | none ↦ none
  | some buff ↦ some (after_send ctl sent (record self { hsbuff = buff }))
]

-- What an input phase comes to: it returns to wait, it fails, or it goes on to the common end.
pub data Verdict : Type 0 where
  wait refuse pass : ProxySocks → Verdict

abbrev pub more_data : ProxySocks → List ℕ → ProxySocks
more_data self s = record self { hsbuff = self.hsbuff ++ s }

pub method_verdict : ProxySocks → List ℕ → Verdict
method_verdict self [] = wait self
method_verdict self (v ∷ []) = wait self
method_verdict self (v ∷ m ∷ more) =
    if not (v == 5)
    then refuse self
    else (if m == 0xff
        then refuse self
        else (if not (length more == 0)
            then refuse self
            else (if m == 2
                then pass (record self { phase = send_auth })
                else (if m == 0
                    then pass (record self { phase = send_request })
                    else refuse self))))

pub auth_verdict : ProxySocks → List ℕ → Verdict
auth_verdict self [] = wait self
auth_verdict self (v ∷ []) = wait self
auth_verdict self (v ∷ status ∷ []) =
    if not (v == 1) || not (status == 0)
    then refuse self
    else pass (record self { phase = send_request })
auth_verdict self (v ∷ status ∷ c ∷ more) = refuse self

-- The reply in the buffer and the peeked bytes: the header, the address, and their length.
pub record Reply : Type 0 where
  pub hdr : Socks5Hdr
  pub ad : Socks5Addr
  pub size : ℕ

pub parse_reply : Inet → List ℕ → Option Reply
parse_reply inet s = elim (socks5_hdr_get s) [
  | none ↦ none
  | some (hdr, n) ↦ elim (socks5_addr_get inet (drop n s)) [
    | none ↦ none
    | some (ad, m) ↦ some (record { hdr = hdr; ad = ad; size = n + m })
  ]
]

-- The bytes to take out of the socket: the rest of the reply, or all that was peeked.
unfoldable pub discard_size : ProxySocks → List ℕ → Option Reply → ℕ
discard_size self peeked none = length peeked
discard_size self peeked (some r) = r.size - length self.hsbuff

abbrev relay_of : Kind → Socks5Addr → Option Socks5Addr → Option Socks5Addr
relay_of udp_associate ad old = some ad
relay_of _ ad old = old

pub accept_reply : ProxySocks → Reply → Verdict
accept_reply self r =
    if not (r.hdr.ver == 5)
    then refuse self
    else (if not (r.hdr.cmd == 0)
        then refuse self
        else pass (record self { phase = forwarding; relay = relay_of self.kind r.ad self.relay }))

pub finish_reply : ProxySocks → Option Reply → Verdict
unfolding accept_reply
finish_reply self none = if length self.hsbuff == capacity then refuse self else wait self
finish_reply self (some r) = accept_reply self r

-- `taken` is the second recv(), of `discard_size` bytes.
pub reply_verdict : Inet → ProxySocks → List ℕ → Recv → Verdict
unfolding parse_reply discard_size finish_reply
reply_verdict inet self peeked (failure e) = refuse self
reply_verdict inet self peeked (bytes taken) =
    let r = parse_reply inet (self.hsbuff ++ peeked) in
    if length taken == discard_size self peeked r
    then finish_reply (more_data self taken) r
    else refuse self

pub received : Inet → Phase → ProxySocks → List ℕ → Recv → Verdict
unfolding method_verdict auth_verdict reply_verdict
received inet recv_method self s taken = method_verdict (more_data self s) (self.hsbuff ++ s)
received inet recv_auth self s taken = auth_verdict (more_data self s) (self.hsbuff ++ s)
received inet recv_reply self s taken = reply_verdict inet self s taken
received inet _ self s taken = pass self

-- The first recv() of each phase; no bytes mean that the server closed the connection.
pub after_recv : Inet → ProxySocks → Recv → Recv → Verdict
unfolding received
after_recv inet self (failure e) taken = if e == eagain then wait self else refuse self
after_recv inet self (bytes s) taken =
    if length s == 0 then refuse self else received inet self.phase self s taken

-- The common end, with its assertion.
pub end_phase : (Ctl → ℕ) → Phase → ProxySocks → Option Turn
end_phase ctl send_request self =
    some (quiet (record self { events = (skutils_evctl ctl self.events epollout evupd).events }))
end_phase ctl send_auth self =
    some (quiet (record self { events = (skutils_evctl ctl self.events epollout evupd).events }))
end_phase ctl forwarding self = some (
    quiet (record self {
      events = (skutils_evctl ctl self.events (bit_or epollout epollin) evupd).events;
    }))
end_phase ctl _ self = none

pub conclude : (Ctl → ℕ) → Verdict → Option Turn
unfolding end_phase
conclude ctl (wait self) = some (quiet self)
conclude ctl (refuse self) = some (fail self)
conclude ctl (pass self) = end_phase ctl self.phase (record self { hsbuff = [] })

unfoldable pub socks_handshake_input : Inet → (Ctl → ℕ) → Recv → Recv → ProxySocks → Option Turn
unfolding after_recv conclude
socks_handshake_input inet ctl first taken self = conclude ctl (after_recv inet self first taken)

-- What the system calls of one event return.
pub record Calls : Type 0 where
  pub sent : Ret
  pub first : Recv
  pub taken : Recv
  pub ctl : Ctl → ℕ

pub dispatch : NspConf → Inet → Calls → ℕ → Phase → ProxySocks → Option Turn
unfolding socks_handshake_output socks_handshake_input
dispatch conf inet calls events forwarding self = some (record { self = self; user = some events })
dispatch conf inet calls events failed self = some (record { self = self; user = some all_events })
dispatch conf inet calls events send_method self =
    socks_handshake_output conf inet calls.ctl calls.sent self
dispatch conf inet calls events send_auth self =
    socks_handshake_output conf inet calls.ctl calls.sent self
dispatch conf inet calls events send_request self =
    socks_handshake_output conf inet calls.ctl calls.sent self
dispatch conf inet calls events _ self =
    socks_handshake_input inet calls.ctl calls.first calls.taken self

unfoldable pub socks_epcb_events : NspConf → Inet → Calls → ℕ → ProxySocks → Option Turn
unfolding dispatch
socks_epcb_events conf inet calls events self = dispatch conf inet calls events self.phase self

-- What the user's calls are told before data may flow; `none` is the way to the socket.
abbrev pub not_ready : Phase → Option ℕ
not_ready failed = some econnaborted
not_ready forwarding = none
not_ready _ = some einprogress

-- socks_shutdown() and socks_evctl() answer -EAGAIN in every phase but the last.
pub not_forwarding : Phase → Option ℕ
not_forwarding forwarding = none
not_forwarding _ = some eagain
