-- ===== src/Options/Dns.antt =====
-- The option -d in main() of src/main.c: the name server and its port.
pub mod Laws
use nsproxy.Common.{
  ℕ, zero, suc, ◌+◌, ◌-◌, ◌*◌, ◌/◌, ◌%◌, ◌^◌, ◌≤◌, ◌<◌, bit_and, bit_or, ◌≡◌, refl, sym, ap, ◌∙◌,
  ◌≢◌, ◌↔◌, ◌⊎◌, inl, inr, Bool, true, false, not, ◌&&◌, ◌||◌, Option, none, some, List, [], ◌∷◌,
  ◌++◌, map, reverse, append-nil, append_assoc, arith, ltb, leb, ◌==◌, if◌then◌else◌, ltb→lt,
  lt→ltb, leb→le, ==_iff, ◌===◌, ===→eq, ===_refl, Bool-cases, Option-cases, ||_cases, ||_right,
  &&_parts, absorb, if_cases, leb-false, ltb-false, ==_false, le_of_ltb, lt_of_leb, length,
  get_elem?, get_or, take, drop, replicate, any, All, length-append, length-reverse,
  length-replicate, length-take, length-drop, take-append-drop, take-append, drop-append, take_all,
  get_elem?-append, get_elem?_below, any-append, All-append, any_mem, Some, any_iff, tail_eq,
}
use nsproxy.Rules.Conf.{NspConf, DnsType, off, tcp, udp, servname_maxlen}
use nsproxy.Options.{
  Result, ok, exits, bad_dns, bad_dns_port, unbracketed_dns, unsupported_dns, and_then, is_nil,
  strchr, has_byte, ℤ, pos, negsuc, strtol,
}

-- "off", "tcp://" and "udp://".
abbrev pub off_name : List ℕ
off_name = b'o' ∷ b'f' ∷ b'f' ∷ []

abbrev pub tcp_scheme : List ℕ
tcp_scheme = b't' ∷ b'c' ∷ b'p' ∷ b':' ∷ b'/' ∷ b'/' ∷ []

abbrev pub udp_scheme : List ℕ
udp_scheme = b'u' ∷ b'd' ∷ b'p' ∷ b':' ∷ b'/' ∷ b'/' ∷ []

-- What stands from `ipbegin` to `ipend`, and what stands behind `sep`, if it is there.
abbrev pub Parts : Type 0
Parts = List ℕ × Option (List ℕ)

abbrev pub behind : Option (List ℕ × List ℕ) → Option (List ℕ)
behind none = none
behind (some (before, after)) = some after

-- `*(ipend + 1) != '\0' || *(ipend + 1) != ':'` refuses.
abbrev pub bracket_parts : Option (List ℕ × List ℕ) → Result Parts
bracket_parts none = exits bad_dns
bracket_parts (some (ip, after)) =
    let c = get_or after 0 0 in
    if not (c == 0) || not (c == b':') then exits bad_dns else ok (ip, behind (strchr b':' after))

-- The first colon must be the last.
abbrev pub plain_parts : List ℕ → Option (List ℕ × List ℕ) → Result Parts
plain_parts sv none = ok (sv, none)
plain_parts sv (some (ip, port)) =
    if has_byte b':' port then exits unbracketed_dns else ok (ip, some port)

unfoldable pub dns_parts : List ℕ → Result Parts
dns_parts [] = plain_parts [] none
dns_parts (c ∷ s) =
    if c == b'[' then bracket_parts (strchr b']' s) else plain_parts (c ∷ s) (strchr b':' (c ∷ s))

abbrev pub port_value : ℤ × List ℕ → Result ℕ
port_value (pos n, rest) =
    if n == 0 || (ltb 65535 n || not (is_nil rest)) then exits bad_dns_port else ok n
port_value (negsuc n, rest) = exits bad_dns_port

abbrev pub dns_port : Option (List ℕ) → Result ℕ
dns_port none = ok 53
dns_port (some s) = port_value (strtol s)

abbrev pub set_dns : NspConf → DnsType → Parts → Result NspConf
set_dns conf type (ip, port) =
    if is_nil ip || ltb servname_maxlen (length ip)
    then exits bad_dns
    else and_then (dns_port port)
        (λ n. ok (record conf { dnssrv = ip; dnsport = n; dnstype = type }))

unfoldable pub parse_dns : NspConf → List ℕ → Result NspConf
parse_dns conf dns =
    let is_tcp = take 6 dns === tcp_scheme in
    if dns === off_name
    then ok (record conf { dnstype = off })
    else (if is_tcp || take 6 dns === udp_scheme
        then and_then (dns_parts (drop 6 dns)) (set_dns conf (if is_tcp then tcp else udp))
        else exits unsupported_dns)
