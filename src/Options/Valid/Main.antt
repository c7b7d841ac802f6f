-- ===== src/Options/Valid/Main.antt =====
-- Every command line that src/main.c accepts makes a valid configuration, and every one has an end.
use nsproxy.Common.{ℕ, ◌≡◌, refl, sym, ap, ◌∙◌, Bool, not, Option, none, some, List, [], ◌∷◌, arith}
use nsproxy.Rules.Conf.{NspConf}
use nsproxy.Options.{Result, ok, exits, no_command}
use nsproxy.Options.Outcome.{ok_inj, guard_passed}
use nsproxy.Options.Cidr.{add_direct_cidr, parse_direct_cidrs, strtok}
use nsproxy.Options.Files.{add_domain, load_direct_cidrs_file, load_direct_domains_file}
use nsproxy.Options.Main.{
  Opt, Settings, Env, set_mode, fuel_for, one_option, then_rest, options_loop, unset, help,
  use_http, use_direct, no_half_close, use_ipv6, verbose, quiet, unknown, server, port, dns, auth,
  cidrs, cidr_file, mode, domain_file, log_file,
}
use nsproxy.Options.Finish.{after_options, main_conf}
use nsproxy.Options.Valid.{ConfValid, EnvLaws, configure_valid}
use nsproxy.Options.Valid.Rules.{cidr-Keeps, domain-Keeps, items_valid}
use nsproxy.Options.Valid.Loops.{some_inj, file_valid, with_conf-ok, with_loaded-ok, mode_valid}

moved : {c d : NspConf} → d ≡ c → ConfValid c → ConfValid d
moved e v = rw e v

same_conf :
    (st t s : Settings)
    → ConfValid st.conf
    → t.conf ≡ st.conf
    → some (ok t) ≡ some (ok s)
    → ConfValid s.conf
same_conf st t s v e h = moved (sym (ap (λ (x : Settings). x.conf) (ok_inj (some_inj h))) ∙ e) v

flag_valid :
    (st s : Settings) (d : NspConf)
    → ConfValid d
    → some (ok (record st { conf = d })) ≡ some (ok s)
    → ConfValid s.conf
flag_valid st s d v h = moved (sym (ap (λ (x : Settings). x.conf) (ok_inj (some_inj h)))) v

flags :
    (conf : NspConf) (six half : ℕ)
    → ConfValid conf
    → ConfValid (record conf { ipv6 = six; no_proxy_half_close = half })
flags conf six half v = record {
  user = v.user;
  pass = v.pass;
  server = v.server;
  server_port = v.server_port;
  name_server = v.name_server;
  name_server_port = v.name_server_port;
  blocks = v.blocks;
}

one_valid :
    (env : Env) (o : Opt) (st s : Settings)
    → EnvLaws env
    → ConfValid st.conf
    → one_option env o st ≡ some (ok s)
    → ConfValid s.conf
unfolding one_option parse_direct_cidrs load_direct_cidrs_file load_direct_domains_file
one_valid env help st s laws v h = absurd (cc (some_inj h))
one_valid env unknown st s laws v h = absurd (cc (some_inj h))
one_valid env use_http st s laws v h = same_conf st _ s v refl h
one_valid env use_direct st s laws v h = same_conf st _ s v refl h
one_valid env no_half_close st s laws v h = flag_valid st s _ (flags st.conf st.conf.ipv6 1 v) h
one_valid env use_ipv6 st s laws v h =
    flag_valid st s _ (flags st.conf 1 st.conf.no_proxy_half_close v) h
one_valid env verbose st s laws v h = same_conf st st s v refl h
one_valid env quiet st s laws v h = same_conf st st s v refl h
one_valid env (server a) st s laws v h = same_conf st _ s v refl h
one_valid env (port a) st s laws v h = same_conf st _ s v refl h
one_valid env (dns a) st s laws v h = same_conf st _ s v refl h
one_valid env (auth a) st s laws v h = same_conf st _ s v refl h
one_valid env (log_file a) st s laws v h = same_conf st st s v refl h
one_valid env (cidrs a) st s laws v h =
    let (c, e, f) = with_conf-ok st s (parse_direct_cidrs env.libc st.conf a) (some_inj h) in
    moved f (
      items_valid (add_direct_cidr env.libc) (strtok b',' a) st.conf c
        (cidr-Keeps env.libc laws.addresses) v e)
one_valid env (mode a) st s laws v h =
    let (c, e, f) = with_conf-ok st s (set_mode st.conf a) (some_inj h) in
    moved f (mode_valid st.conf c a v e)
one_valid env (cidr_file a) st s laws v h =
    let (c, e, f) = with_loaded-ok st s _ h in
    moved f (
      file_valid (add_direct_cidr env.libc) (fuel_for env a) (env.file a) (env.failed a) st.conf c
        (cidr-Keeps env.libc laws.addresses) v e)
one_valid env (domain_file a) st s laws v h =
    let (c, e, f) = with_loaded-ok st s _ h in
    moved f (
      file_valid add_domain (fuel_for env a) (env.file a) (env.failed a) st.conf c domain-Keeps v e)

options_valid :
    (env : Env) (os : List Opt) (st s : Settings)
    → EnvLaws env
    → ConfValid st.conf
    → options_loop env os st ≡ some (ok s)
    → ConfValid s.conf
unfolding options_loop
options_valid env [] st s laws v h = same_conf st st s v refl h
options_valid env (o ∷ os) st s laws v h =
    let (t, e, f) = then_rest-ok (one_option env o st) (options_loop env os) s h in
    options_valid env os t s laws (one_valid env o st t laws v e) f
  where
    then_rest-ok :
        (r : Option (Result Settings)) (f : Settings → Option (Result Settings)) (s : Settings)
        → then_rest r f ≡ some (ok s)
        → (t : Settings) × (r ≡ some (ok t)) × (f t ≡ some (ok s))
    then_rest-ok none f s h = absurd (cc (h))
    then_rest-ok (some (ok t)) f s h = (t, refl, h)
    then_rest-ok (some (exits e)) f s h = absurd (cc (some_inj h))

zeroed_valid : ConfValid unset.conf
zeroed_valid = record {
  user = omega arith;
  pass = omega arith;
  server = omega arith;
  server_port = omega arith;
  name_server = omega arith;
  name_server_port = omega arith;
  blocks = tt;
}

-- Whatever the options and the files are: if main() goes on with a configuration, its texts fit in
-- their arrays, the ports are 16-bit numbers, and every CIDR block has sixteen bytes of address and a
-- prefix length within the 32 or 128 bits of its family.
pub main_conf-ConfValid :
    (env : Env) (opts : List Opt) (command : Bool) (conf : NspConf)
    → EnvLaws env
    → main_conf env opts command ≡ some (ok conf)
    → ConfValid conf
unfolding main_conf
main_conf-ConfValid env opts command conf laws h = by_loop (options_loop env opts unset) refl h
  where
    by_loop :
        (o : Option (Result Settings))
        → options_loop env opts unset ≡ o
        → after_options env command o ≡ some (ok conf)
        → ConfValid conf
    by_loop none e h = absurd (cc (h))
    by_loop (some (exits x)) e h = absurd (cc (some_inj h))
    by_loop (some (ok st)) e h =
        let (_, f) = guard_passed (not command) no_command _ (some_inj h) in
        configure_valid env st conf laws (options_valid env opts unset st laws zeroed_valid e) f
