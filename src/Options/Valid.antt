-- ===== src/Options/Valid.antt =====
-- What holds of every configuration that main() of src/main.c makes of its options.
pub mod Rules
pub mod Loops
pub mod Main
pub mod Ends
use nsproxy.Common.{
  ℕ, zero, suc, ◌+◌, ◌-◌, ◌*◌, ◌/◌, ◌%◌, ◌^◌, ◌≤◌, ◌<◌, bit_and, bit_or, ◌≡◌, refl, sym, ap, ◌∙◌,
  ◌≢◌, ◌↔◌, ◌⊎◌, inl, inr, Bool, true, false, not, ◌&&◌, ◌||◌, Option, none, some, List, [], ◌∷◌,
  ◌++◌, map, reverse, append-nil, append_assoc, arith, ltb, leb, ◌==◌, if◌then◌else◌, ltb→lt,
  lt→ltb, leb→le, ==_iff, ◌===◌, ===→eq, ===_refl, Bool-cases, Option-cases, ||_cases, ||_right,
  &&_parts, absorb, if_cases, leb-false, ltb-false, ==_false, le_of_ltb, lt_of_leb, length,
  get_elem?, get_or, take, drop, replicate, any, All, length-append, length-reverse,
  length-replicate, length-take, length-drop, take-append-drop, take-append, drop-append, take_all,
  get_elem?-append, get_elem?_below, any-append, All-append, any_mem, Some, any_iff, tail_eq,
}
use nsproxy.Rules.Conf.{NspConf, DnsType, off, CidrBlock, auth_maxlen, servname_maxlen}
use nsproxy.Socks.Codec.{Inet, InetLaws}
use nsproxy.Options.{
  Result, ok, exits, Fail, and_then, bad_dns, bad_dns_port, unsupported_dns, is_nil, ℤ, pos, negsuc,
  strtol,
}
use nsproxy.Options.Outcome.{ok_inj, guard_passed, guard_held, and_then-ok}
use nsproxy.Options.Text.{||_false}
use nsproxy.Options.Cidr.{max_prefix}
use nsproxy.Options.Auth.{AuthOk, parse_auth, parse_auth_iff}
use nsproxy.Options.Dns.{Parts, dns_parts, dns_port, port_value, set_dns, parse_dns, off_name}
use nsproxy.Options.Main.{Opt, Settings, Env, unset, options_loop}
use nsproxy.Options.Finish.{set_credentials, proxy_of, set_server, set_proxy, configure, main_conf}

-- The prefix is within the address, which has its sixteen bytes.
pub record BlockValid (b : CidrBlock) : Type 0 where
  pub prefix : b.prefixlen ≤ max_prefix b.family
  pub sixteen : length b.addr ≡ 16

-- Every text fits in the array that `struct nspconf` has for it, the ports are 16-bit numbers, and the
-- blocks are valid.
pub record ConfValid (conf : NspConf) : Type 0 where
  pub user : length conf.proxyuser ≤ auth_maxlen
  pub pass : length conf.proxypass ≤ auth_maxlen
  pub server : length conf.proxysrv ≤ servname_maxlen
  pub server_port : conf.proxyport ≤ 65535
  pub name_server : length conf.dnssrv ≤ servname_maxlen
  pub name_server_port : conf.dnsport ≤ 65535
  pub blocks : All BlockValid conf.direct_cidrs

-- inet_pton() gives 4 or 16 bytes; getaddrinfo() and inet_ntop() give an address of at most 255 bytes,
-- and a 16-bit port.
pub record EnvLaws (env : Env) : Type 0 where
  pub addresses : InetLaws env.libc
  pub resolved :
      (s p addr : List ℕ) (n : ℕ)
      → env.resolve s p ≡ some (addr, n)
      → (length addr ≤ servname_maxlen) × (n ≤ 65535)

auth_valid :
    (ishttp : Bool) (conf c : NspConf) (o : Option (List ℕ))
    → ConfValid conf
    → set_credentials ishttp conf o ≡ ok c
    → ConfValid c
auth_valid ishttp conf c none v h = rw (sym (ok_inj h)) v
auth_valid ishttp conf c (some s) v h =
    let (user, pass, g, a, e) = (parse_auth_iff ishttp conf c s).0 h in
    rw e (record {
      user = a.short.0;
      pass = a.short.1;
      server = v.server;
      server_port = v.server_port;
      name_server = v.name_server;
      name_server_port = v.name_server_port;
      blocks = v.blocks;
    })

server_valid :
    (conf c : NspConf) (o : Option (List ℕ × ℕ))
    → ((addr : List ℕ) (n : ℕ) → o ≡ some (addr, n) → (length addr ≤ servname_maxlen) × (n ≤ 65535))
    → ConfValid conf
    → set_server conf o ≡ ok c
    → ConfValid c
server_valid conf c none laws v h = absurd (cc (h))
server_valid conf c (some (addr, n)) laws v h = rw (sym (ok_inj h)) (record {
  user = v.user;
  pass = v.pass;
  server = (laws addr n refl).0;
  server_port = (laws addr n refl).1;
  name_server = v.name_server;
  name_server_port = v.name_server_port;
  blocks = v.blocks;
})

proxy_valid :
    (env : Env) (st : Settings) (conf c : NspConf)
    → EnvLaws env
    → ConfValid conf
    → set_proxy env st conf ≡ ok c
    → ConfValid c
unfolding set_proxy
proxy_valid env st conf c laws v h =
    let typed : ConfValid (record conf { proxytype = proxy_of st.ishttp st.isdirect }) = record {
      user = v.user;
      pass = v.pass;
      server = v.server;
      server_port = v.server_port;
      name_server = v.name_server;
      name_server_port = v.name_server_port;
      blocks = v.blocks;
    } in
    by_kind st.isdirect _ _ _ typed (guard_passed _ _ _ h).1
  where
    by_kind :
        (b : Bool) (d : NspConf) (s p : List ℕ)
        → ConfValid d
        → (if b then ok d else set_server d (env.resolve s p)) ≡ ok c
        → ConfValid c
    by_kind true d s p w e = rw (sym (ok_inj e)) w
    by_kind false d s p w e = server_valid d c (env.resolve s p) (laws.resolved s p) w e

port_bound : (r : ℤ × List ℕ) (n : ℕ) → port_value r ≡ ok n → n ≤ 65535
port_bound (negsuc k, rest) n h = absurd (cc (h))
port_bound (pos k, rest) n h =
    let (p, e) = guard_passed _ bad_dns_port _ h in
    let large = ||_false (ltb 65535 k) (not (is_nil rest)) (||_false (k == 0) _ p).1 in
    omega (arith, le_of_ltb _ _ large.0, ok_inj e)

dns_port_bound : (o : Option (List ℕ)) (n : ℕ) → dns_port o ≡ ok n → n ≤ 65535
dns_port_bound none n h = omega (arith, ok_inj h)
dns_port_bound (some s) n h = port_bound (strtol s) n h

set_dns_valid :
    (conf c : NspConf) (type : DnsType) (ip : List ℕ) (port : Option (List ℕ))
    → ConfValid conf
    → set_dns conf type (ip, port) ≡ ok c
    → ConfValid c
set_dns_valid conf c type ip port v h =
    let (p, e) = guard_passed _ bad_dns _ h in
    let (n, f, g) = and_then-ok (dns_port port) _ e in
    let short = (||_false (is_nil ip) (ltb servname_maxlen (length ip)) p).1 in
    rw (sym (ok_inj g)) (record {
      user = v.user;
      pass = v.pass;
      server = v.server;
      server_port = v.server_port;
      name_server = le_of_ltb _ _ short;
      name_server_port = dns_port_bound port n f;
      blocks = v.blocks;
    })

dns_valid : (conf c : NspConf) (s : List ℕ) → ConfValid conf → parse_dns conf s ≡ ok c → ConfValid c
unfolding parse_dns
dns_valid conf c s v = by_name (s === off_name) _ _
  where
    by_name :
        (b g : Bool) (type : DnsType)
        → (if b
            then ok (record conf { dnstype = off })
            else (if g
                then and_then (dns_parts (drop 6 s)) (set_dns conf type)
                else exits unsupported_dns))
          ≡ ok c
        → ConfValid c
    by_name true g type h = rw (sym (ok_inj h)) (record {
      user = v.user;
      pass = v.pass;
      server = v.server;
      server_port = v.server_port;
      name_server = v.name_server;
      name_server_port = v.name_server_port;
      blocks = v.blocks;
    })
    by_name false g type h =
        let (held, e) = guard_held g unsupported_dns _ h in
        let (parts, f, k) = and_then-ok (dns_parts (drop 6 s)) _ e in
        set_dns_valid conf c type parts.0 parts.1 v k

pub configure_valid :
    (env : Env) (st : Settings) (c : NspConf)
    → EnvLaws env
    → ConfValid st.conf
    → configure env st ≡ ok c
    → ConfValid c
unfolding configure
configure_valid env st c laws v h =
    let (d, e, f) = and_then-ok (set_credentials st.ishttp st.conf st.auth) _ h in
    let (q, g, k) = and_then-ok (set_proxy env st d) _ f in
    dns_valid q c _ (proxy_valid env st d q laws (auth_valid st.ishttp st.conf d st.auth v e) g) k
