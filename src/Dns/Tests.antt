-- ===== src/Dns/Tests.antt =====
-- The laws of the DNS parsers at concrete messages.
use nsproxy.Common.{ℕ, ◌+◌, ◌≡◌, refl, true, false, List, [], ◌∷◌, ◌++◌, arith, ◌===◌, length, All}
use nsproxy.Rules.Domains.{nspconf_domain_matches}
use nsproxy.Rules.Target.{v4, is_direct_cidr_target}
use nsproxy.Rules.Tests.{empty_conf}
use nsproxy.Socks.Codec.{c_string}
use nsproxy.Dns.Name.{name, dns_read_name}
use nsproxy.Dns.Name.Bounds.{ResultOk, dns_read_name-ResultOk}
use nsproxy.Dns.Name.RoundTrip.{IsLabel, wire, text_of, dns_read_name-wire, dns_read_name-pointer}
use nsproxy.Dns.Response.{dns_response_add_direct_cidrs}
use nsproxy.Dns.Response.Safety.{dns_response-safe}
use nsproxy.Dns.Response.Learn.{a_reply, dns_response-routes}

-- The labels of "a.b".
abbrev ab : List (List ℕ)
ab = (b'a' ∷ []) ∷ (b'b' ∷ []) ∷ []

ab-IsLabel : All IsLabel ab
ab-IsLabel = ((omega arith, omega arith), ((omega arith, omega arith), tt))

-- The name, and a pointer to it.
abbrev two_names : List ℕ
two_names = wire ab ++ (0xc0 ∷ 0 ∷ [])

dns_read_name-ResultOk_example : ResultOk two_names 5 256 (dns_read_name two_names 5 256)
dns_read_name-ResultOk_example = dns_read_name-ResultOk two_names 5 256

dns_read_name-wire_example :
    dns_read_name ((7 ∷ []) ++ (wire ab ++ (9 ∷ []))) 1 256
    ≡ name (1 + length (wire ab)) (text_of ab)
dns_read_name-wire_example =
    dns_read_name-wire ab (7 ∷ []) (9 ∷ []) 256 ab-IsLabel (omega arith) (omega arith) (omega arith)

dns_read_name-pointer_example : dns_read_name two_names 5 256 ≡ name 7 (text_of ab)
dns_read_name-pointer_example =
    dns_read_name-pointer ab two_names [] (0xc0 ∷ 0 ∷ []) (wire ab) [] 0xc0 0 256 refl refl refl
      refl ab-IsLabel (omega arith) (omega arith) (omega arith)

abbrev reply : List ℕ
reply = a_reply 1 2 ab 0 0 0 60 (10 ∷ 0 ∷ 0 ∷ 1 ∷ [])

ab_matches : nspconf_domain_matches empty_conf (c_string (text_of ab)) ≡ true
unfolding nspconf_domain_matches ◌===◌ c_string
ab_matches = refl

dns_response-routes_example :
    is_direct_cidr_target
      (dns_response_add_direct_cidrs empty_conf reply).conf
      (v4 (10 ∷ 0 ∷ 0 ∷ 1 ∷ []))
    ≡ true
dns_response-routes_example =
    dns_response-routes empty_conf 1 2 ab 0 0 0 60 10 0 0 1 ab-IsLabel (omega arith) (omega arith)
      ab_matches

dns_response-safe_example : (dns_response_add_direct_cidrs empty_conf reply).overran ≡ false
dns_response-safe_example = dns_response-safe empty_conf reply
