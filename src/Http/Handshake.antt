-- ===== src/Http/Handshake.antt =====
-- The handshake of src/http.c as a state machine: http_handshake_output(), http_handshake_input()
-- and http_epcb_events(). What a system call returns is an argument. `hsbuff` holds the bytes in use
-- of the buffer; the freed buffer is the empty list.
pub mod Request
pub mod Reply
pub mod Status
pub mod Phases
use nsproxy.Common.{
  ℕ, zero, suc, ◌+◌, ◌-◌, ◌*◌, ◌/◌, ◌%◌, ◌^◌, ◌≤◌, ◌<◌, bit_and, bit_or, ◌≡◌, refl, sym, ap, ◌∙◌,
  ◌≢◌, ◌↔◌, ◌⊎◌, inl, inr, Bool, true, false, not, ◌&&◌, ◌||◌, Option, none, some, List, [], ◌∷◌,
  ◌++◌, map, reverse, append-nil, append_assoc, arith, ltb, leb, ◌==◌, if◌then◌else◌, ltb→lt,
  lt→ltb, leb→le, ==_iff, ◌===◌, ===→eq, ===_refl, Bool-cases, Option-cases, ||_cases, ||_right,
  &&_parts, absorb, if_cases, leb-false, ltb-false, ==_false, le_of_ltb, lt_of_leb, length,
  get_elem?, get_or, take, drop, replicate, any, All, length-append, length-reverse,
  length-replicate, length-take, length-drop, take-append-drop, take-append, drop-append, take_all,
  get_elem?-append, get_elem?_below, any-append, All-append, any_mem, Some, any_iff, tail_eq,
}
use nsproxy.Rules.Conf.{NspConf, auth_maxlen}
use nsproxy.Rules.Text.{is_space}
use nsproxy.Skutils.{
  eagain, econnaborted, einprogress, Ret, count, errno, Recv, bytes, failure, epollin, epollout,
  Ctl, evupd, skutils_evctl,
}
use nsproxy.Socks.Codec.{c_string}
use nsproxy.Http.Base64.{base64_encode}

pub data HttpPhase : Type 0 where
  failed send_request recv_reply forwarding : HttpPhase

-- HTTP_HS_BUFF.
abbrev pub capacity : ℕ
capacity = 4096

-- The fields of `struct proxy_http` that the handshake reads or sets.
pub record ProxyHttp : Type 0 where
  pub phase : HttpPhase
  pub hsbuff : List ℕ
  pub events : ℕ
  pub addr : List ℕ
  pub port : ℕ

-- A handler's new state, and the events that it passes to `userev`, if it calls that.
pub record HttpTurn : Type 0 where
  pub self : ProxyHttp
  pub user : Option ℕ

abbrev pub quiet : ProxyHttp → HttpTurn
quiet self = record { self = self; user = none }

-- EPOLLIN | EPOLLOUT | EPOLLERR
abbrev pub fail : ProxyHttp → HttpTurn
fail self = record { self = record self { phase = failed }; user = some 13 }

-- %u of a number with at most `fuel` digits.
abbrev pub decimal : ℕ → ℕ → List ℕ
decimal zero n = []
decimal (suc fuel) n =
    let rest = decimal fuel (n / 10) in
    if ltb n 10 then (48 + n) ∷ [] else rest ++ ((48 + n % 10) ∷ [])

abbrev pub has_colon : List ℕ → Bool
has_colon addr = any (λ c. c == 58) addr

-- %s%s%s:%u: the address, in brackets if it has a colon, and the port.
unfoldable pub host_port : ProxyHttp → List ℕ
host_port self =
    let tail = 58 ∷ decimal 5 self.port in
    if has_colon self.addr then 91 ∷ (self.addr ++ (93 ∷ tail)) else self.addr ++ tail

-- snprintf() into `size` bytes cuts the string at `size - 1`.
abbrev pub printed : ℕ → List ℕ → List ℕ
printed size s = take (size - 1) s

-- "CONNECT ", " HTTP/1.1\r\n", "Host: ", "\r\n" and "Proxy-Authorization: Basic ".
abbrev pub connect : List ℕ
connect = 67 ∷ 79 ∷ 78 ∷ 78 ∷ 69 ∷ 67 ∷ 84 ∷ 32 ∷ []

abbrev pub version_line : List ℕ
version_line = 32 ∷ 72 ∷ 84 ∷ 84 ∷ 80 ∷ 47 ∷ 49 ∷ 46 ∷ 49 ∷ 13 ∷ 10 ∷ []

abbrev pub host_name : List ℕ
host_name = 72 ∷ 111 ∷ 115 ∷ 116 ∷ 58 ∷ 32 ∷ []

abbrev pub crlf : List ℕ
crlf = 13 ∷ 10 ∷ []

abbrev pub basic : List ℕ
basic =
    80 ∷ 114 ∷ 111 ∷ 120 ∷ 121 ∷ 45 ∷ 65 ∷ 117 ∷ 116 ∷ 104 ∷ 111 ∷ 114 ∷ 105 ∷ 122 ∷ 97 ∷ 116 ∷ 105
    ∷ 111 ∷ 110 ∷ 58 ∷ 32 ∷ 66 ∷ 97 ∷ 115 ∷ 105 ∷ 99 ∷ 32 ∷ []

abbrev pub credentials : NspConf → List ℕ
credentials conf = printed (auth_maxlen * 2 + 2) (conf.proxyuser ++ (58 ∷ conf.proxypass))

-- The string in the array `base64`, of BASE64_OUTLEN(AUTH_MAXLEN * 2 + 1) bytes.
unfoldable pub authorization : NspConf → List ℕ
authorization conf =
    elim (base64_encode ((auth_maxlen * 2 + 1 + 2) / 3 * 4 + 1) (credentials conf)) [
      | none ↦ []
      | some out ↦ c_string out
    ]

unfoldable pub request_lines : ProxyHttp → List ℕ
request_lines self =
    connect ++ (host_port self ++ (version_line ++ (host_name ++ (host_port self ++ crlf))))

-- The request as snprintf() would write it without a bound. Its result, the size in use, is its
-- length.
unfoldable pub http_request : NspConf → ProxyHttp → List ℕ
http_request conf self =
    if length conf.proxyuser == 0
    then request_lines self ++ crlf
    else request_lines self ++ (basic ++ (authorization conf ++ (crlf ++ crlf)))

abbrev pub http_assemble : NspConf → ProxyHttp → List ℕ
http_assemble conf self = if length self.hsbuff == 0 then http_request conf self else self.hsbuff

unfoldable pub http_handshake_output : NspConf → (Ctl → ℕ) → Ret → ProxyHttp → HttpTurn
http_handshake_output conf ctl (errno e) self =
    let next : ProxyHttp = record self { hsbuff = http_assemble conf self } in
    if e == eagain then quiet next else fail next
http_handshake_output conf ctl (count n) self =
    let rest = drop n (http_assemble conf self) in
    if length rest == 0
    then quiet (record self {
      hsbuff = [];
      phase = recv_reply;
      events = (skutils_evctl ctl self.events epollin evupd).events;
    })
    else quiet (record self { hsbuff = rest })

-- strstr() of "\r\n\r\n" in the buffer's string: the number of bytes up to and with the match.
unfoldable pub crlf2_end : List ℕ → Option ℕ
crlf2_end [] = none
crlf2_end (c ∷ s) =
    let rest = crlf2_end s in
    if take 4 (c ∷ s) === (13 ∷ 10 ∷ 13 ∷ 10 ∷ [])
    then some 4
    else elim rest [ none ↦ none | some n ↦ some (suc n) ]

-- The number of bytes to take out of the socket.
unfoldable pub reply_discard : ℕ → ℕ → Option ℕ → ℕ
reply_discard size nread none = nread
reply_discard size nread (some end) = end - size

abbrev pub is_digit : ℕ → Bool
is_digit c = leb 48 c && leb c 57

abbrev pub digits : ℕ → List ℕ → ℕ
digits acc [] = acc
digits acc (c ∷ s) = let rest = digits (acc * 10 + (c - 48)) s in if is_digit c then rest else acc

abbrev pub skip_white : List ℕ → List ℕ
skip_white [] = []
skip_white (c ∷ s) = let rest = skip_white s in if is_space c then rest else c ∷ s

abbrev pub scan_digits : List ℕ → Option ℕ
scan_digits [] = none
scan_digits (c ∷ s) = if is_digit c then some (digits 0 (c ∷ s)) else none

-- A number that strtol() keeps within a long, cut to the 32 bits of an int.
abbrev pub signed : Bool → Option ℕ → Option ℕ
signed negative none = none
signed false (some n) = some ((if ltb n (2 ^ 63) then n else 2 ^ 63 - 1) % 2 ^ 32)
signed true (some n) = some ((2 ^ 32 - (if ltb n (2 ^ 63) then n else 2 ^ 63) % 2 ^ 32) % 2 ^ 32)

-- %d: the bits of the int that it stores.
abbrev pub scan_int : List ℕ → Option ℕ
scan_int [] = none
scan_int (c ∷ s) =
    if c == 45
    then signed true (scan_digits s)
    else (if c == 43 then signed false (scan_digits s) else signed false (scan_digits (c ∷ s)))

abbrev pub http_1 : List ℕ
http_1 = 72 ∷ 84 ∷ 84 ∷ 80 ∷ 47 ∷ 49 ∷ 46 ∷ []

-- sscanf(s, "HTTP/1.%c %d", &vermin, &code): the code where it returns 2.
unfoldable pub scan_status : List ℕ → Option ℕ
scan_status s =
    if take 7 s === http_1 && ltb 7 (length s) then scan_int (skip_white (drop 8 s)) else none

unfoldable pub is_ok : Option ℕ → Bool
is_ok none = false
is_ok (some code) = code == 200

-- What follows both calls of recv(), of which the first left the string `s` in the buffer.
unfoldable pub http_reply : (Ctl → ℕ) → List ℕ → Option ℕ → ProxyHttp → HttpTurn
http_reply ctl s none self = if length self.hsbuff == capacity - 1 then fail self else quiet self
http_reply ctl s (some end) self =
    if is_ok (scan_status s)
    then quiet (record self {
      hsbuff = [];
      phase = forwarding;
      events = (skutils_evctl ctl self.events (bit_or epollout epollin) evupd).events;
    })
    else fail self

-- The second recv() takes what is to be discarded, or the handshake fails.
unfoldable pub http_taken : (Ctl → ℕ) → List ℕ → Recv → ProxyHttp → HttpTurn
http_taken ctl peeked (failure e) self = fail self
http_taken ctl peeked (bytes taken) self =
    let s = c_string (self.hsbuff ++ peeked) in
    let end = crlf2_end s in
    if length taken == reply_discard (length self.hsbuff) (length peeked) end
    then http_reply ctl s end (record self { hsbuff = self.hsbuff ++ taken })
    else fail self

unfoldable pub http_handshake_input : (Ctl → ℕ) → Recv → Recv → ProxyHttp → HttpTurn
http_handshake_input ctl (failure e) taken self = if e == eagain then quiet self else fail self
http_handshake_input ctl (bytes peeked) taken self =
    if length peeked == 0 then fail self else http_taken ctl peeked taken self

-- What the system calls of one event return.
pub record HttpCalls : Type 0 where
  pub sent : Ret
  pub first : Recv
  pub taken : Recv
  pub ctl : Ctl → ℕ

abbrev pub http_dispatch : NspConf → HttpCalls → ℕ → HttpPhase → ProxyHttp → HttpTurn
http_dispatch conf calls events forwarding self = record { self = self; user = some events }
http_dispatch conf calls events failed self = record { self = self; user = some 13 }
http_dispatch conf calls events send_request self =
    http_handshake_output conf calls.ctl calls.sent self
http_dispatch conf calls events recv_reply self =
    http_handshake_input calls.ctl calls.first calls.taken self

unfoldable pub http_epcb_events : NspConf → HttpCalls → ℕ → ProxyHttp → HttpTurn
http_epcb_events conf calls events self = http_dispatch conf calls events self.phase self
