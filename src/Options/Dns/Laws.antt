-- ===== src/Options/Dns/Laws.antt =====
-- Which name servers main() of src/main.c accepts.
use nsproxy.Common.{
  ℕ, ◌^◌, ◌≤◌, ◌<◌, ◌≡◌, refl, sym, ◌∙◌, ◌≢◌, inl, inr, Bool, true, false, ◌&&◌, Option, none, some,
  List, [], ◌∷◌, ◌++◌, append-nil, arith, ltb, leb, ◌==◌, if◌then◌else◌, leb→le, ==_iff, ◌===◌,
  Bool-cases, &&_parts, ltb-false, ==_false, length, get_or, All,
}
use nsproxy.Rules.Conf.{NspConf, DnsType, tcp, udp, servname_maxlen}
use nsproxy.Options.{ok, exits, bad_dns, bad_dns_port, and_then, strchr, has_byte, pos}
use nsproxy.Options.Text.{IsDigit, decimal, strtol-decimal, strchr-append, strchr-none}
use nsproxy.Options.Dns.{
  tcp_scheme, udp_scheme, bracket_parts, plain_parts, dns_parts, dns_port, port_value, set_dns,
  parse_dns,
}

abbrev pub scheme : Bool → List ℕ
scheme true = tcp_scheme
scheme false = udp_scheme

abbrev pub type_of : Bool → DnsType
type_of true = tcp
type_of false = udp

scheme_lem :
    (conf : NspConf) (over_tcp : Bool) (sv : List ℕ)
    → parse_dns conf (scheme over_tcp ++ sv)
      ≡ and_then (dns_parts sv) (set_dns conf (type_of over_tcp))
unfolding parse_dns ◌===◌
scheme_lem conf true sv = refl
scheme_lem conf false sv = refl

bracket_refused : (o : Option (List ℕ × List ℕ)) → bracket_parts o ≡ exits bad_dns
bracket_refused none = refl
bracket_refused (some (ip, after)) =
    let c = get_or after 0 0 in
    elim (Bool-cases (c == 0)) [
      | inl z ↦
          (let other : (c == b':') ≡ false =
              ==_false c b':' (λ e. omega (arith, (==_iff c 0).0 z, e)) in
            rw (z, other) refl)
      | inr n ↦ rw n refl
    ]

-- No server in brackets is accepted, with a port or without, over TCP or UDP: the byte behind the
-- bracket would have to be both the NUL and a colon.
parse_dns-bracket :
    (conf : NspConf) (over_tcp : Bool) (s : List ℕ)
    → parse_dns conf (scheme over_tcp ++ (b'[' ∷ s)) ≡ exits bad_dns
unfolding dns_parts
parse_dns-bracket conf over_tcp s =
    scheme_lem conf over_tcp (b'[' ∷ s) ∙ rw (bracket_refused (strchr b']' s)) refl

-- A server that is written as it is: one to 255 bytes, no colon, no bracket in front.
pub record IsPlain (ip : List ℕ) : Type 0 where
  pub proper : ip ≢ []
  pub short : length ip ≤ 255
  pub no_colon : has_byte b':' ip ≡ false
  pub no_bracket : (get_or ip 0 0 == b'[') ≡ false

plain_dns_parts :
    (ip : List ℕ) (t : List ℕ)
    → IsPlain ip
    → dns_parts (ip ++ t) ≡ plain_parts (ip ++ t) (strchr b':' (ip ++ t))
unfolding dns_parts
plain_dns_parts [] t h = absurd (h.proper refl)
plain_dns_parts (c ∷ s) t h = rw h.no_bracket refl

set_plain :
    (conf : NspConf) (type : DnsType) (ip : List ℕ) (port : Option (List ℕ))
    → IsPlain ip
    → set_dns conf type (ip, port)
      ≡ and_then
          (dns_port port)
          (λ n. ok (record conf { dnssrv = ip; dnsport = n; dnstype = type }))
set_plain conf type [] port h = absurd (h.proper refl)
set_plain conf type (c ∷ s) port h =
    let short : ltb servname_maxlen (length (c ∷ s)) ≡ false = ltb-false _ _ h.short in
    rw short refl

no_port : (ip : List ℕ) → IsPlain ip → dns_parts ip ≡ ok (ip, none)
no_port ip h =
    rw (sym (append-nil ip))
      (plain_dns_parts ip [] h ∙ rw (append-nil ip, strchr-none b':' ip h.no_colon) refl)

digits_no_colon : (s : List ℕ) → All IsDigit s → has_byte b':' s ≡ false
digits_no_colon [] h = refl
digits_no_colon (c ∷ s) (d, h) =
    let high : c ≤ 57 = leb→le _ _ (&&_parts (leb b'0' c) (leb c b'9') d).1 in
    let other : (c == b':') ≡ false = ==_false c b':' (λ e. omega (arith, high, e)) in
    rw (other, digits_no_colon s h) refl

with_port :
    (ip : List ℕ) (c : ℕ) (s : List ℕ)
    → IsPlain ip
    → All IsDigit (c ∷ s)
    → dns_parts (ip ++ (b':' ∷ c ∷ s)) ≡ ok (ip, some (c ∷ s))
with_port ip c s h digits =
    plain_dns_parts ip (b':' ∷ c ∷ s) h
    ∙ rw (strchr-append b':' ip (c ∷ s) h.no_colon, digits_no_colon (c ∷ s) digits) refl

in_range :
    (to : ℕ → NspConf) (n : ℕ)
    → and_then (port_value (pos n, [])) (λ n. ok (to n))
      ≡ (if ltb 0 n && leb n 65535 then ok (to n) else exits bad_dns_port)
in_range to n = ground arith

-- A plain server is accepted with port 53. With a port in digits, within a long, it is accepted with
-- exactly the port that they write if that is from 1 to 65535, and refused otherwise.
pub parse_dns-plain :
    (conf : NspConf) (over_tcp : Bool) (ip : List ℕ) (c : ℕ) (s : List ℕ)
    → IsPlain ip
    → All IsDigit (c ∷ s)
    → decimal 0 (c ∷ s) < 2 ^ 63
    → let to : ℕ → NspConf =
        λ n. record conf { dnssrv = ip; dnsport = n; dnstype = type_of over_tcp } in
      let port = decimal 0 (c ∷ s) in
      (parse_dns conf (scheme over_tcp ++ ip) ≡ ok (to 53))
      × (parse_dns conf (scheme over_tcp ++ (ip ++ (b':' ∷ c ∷ s)))
          ≡ (if ltb 0 port && leb port 65535 then ok (to port) else exits bad_dns_port))
parse_dns-plain conf over_tcp ip c s h digits small = (
  scheme_lem conf over_tcp ip ∙ rw (no_port ip h) (set_plain conf (type_of over_tcp) ip none h),
  scheme_lem conf over_tcp (ip ++ (b':' ∷ c ∷ s))
      ∙ rw (with_port ip c s h digits) (
          set_plain conf (type_of over_tcp) ip (some (c ∷ s)) h
          ∙ rw (strtol-decimal c s digits small) (in_range _ (decimal 0 (c ∷ s)))),
)
