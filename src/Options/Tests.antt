-- ===== src/Options/Tests.antt =====
-- The laws of the options at concrete command lines.
use nsproxy.Common.{
  replicate, ℕ, ◌≤◌, ◌≡◌, refl, sym, ap, ◌↔◌, true, false, ◌&&◌, none, some, List, [], ◌∷◌, ◌++◌,
  arith, ltb, leb, if◌then◌else◌, ◌===◌, length,
}
use nsproxy.Rules.Conf.{NspConf, tcp}
use nsproxy.Rules.Tests.{empty_conf}
use nsproxy.Socks.Codec.{Inet, InetLaws}
use nsproxy.Socks.Handshake.{ProxySocks, tcp_forward, send_method, assemble, capacity}
use nsproxy.Options.{
  line_too_long, strchr, ok, exits, bad_dns_port, bad_prefix, and_then, read_failed,
}
use nsproxy.Options.Cidr.{add_direct_cidr, add_address, max_prefix, item_family, pton}
use nsproxy.Options.Cidr.Laws.{add_direct_cidr-decimal}
use nsproxy.Options.Files.{load_file, add_domain}
use nsproxy.Options.Files.Items.{add_all_items}
use nsproxy.Options.Files.Long.{load_file-long}
use nsproxy.Options.Files.Laws.{file_of, load_file-lines}
use nsproxy.Options.Auth.{AuthOk, parse_auth, parse_auth_iff}
use nsproxy.Options.Dns.{parse_dns, dns_parts}
use nsproxy.Options.Dns.Laws.{scheme, parse_dns-plain}
use nsproxy.Options.Main.{Opt, Env, auth, zeroed, options_loop, one_option}
use nsproxy.Options.Finish.{main_conf, configure, set_proxy}
use nsproxy.Options.Valid.{ConfValid, EnvLaws}
use nsproxy.Options.Valid.Main.{main_conf-ConfValid}
use nsproxy.Options.Valid.Loops.{some_inj}
use nsproxy.Options.Valid.Ends.{main_conf-assemble}

-- Every text is the address 10.0.0.1.
abbrev numeric : Inet
numeric = record {
  pton4 = λ s. some (10 ∷ 0 ∷ 0 ∷ 1 ∷ []);
  pton6 = λ s. none;
  ntop4 = λ b. [];
  ntop6 = λ b. [];
}

numeric-InetLaws : InetLaws numeric
numeric-InetLaws = record {
  pton4_size = λ s b e. sym (ap length (some_inj e));
  pton6_size = λ s b e. absurd (cc (e));
}

-- No file, and one host.
abbrev env : Env
env = record {
  libc = numeric;
  file = λ path. none;
  failed = λ path. false;
  resolve = λ s p. some (b'1' ∷ [], 1080);
}

env-EnvLaws : EnvLaws env
env-EnvLaws = record {
  addresses = numeric-InetLaws;
  resolved = λ s p addr n e. (
    omega (arith, ap (λ (x : List ℕ × ℕ). length x.0) (some_inj e)),
    omega (arith, ap (λ (x : List ℕ × ℕ). x.1) (some_inj e)),
  );
}

-- `-a u:p`
abbrev line : List Opt
line = auth (b'u' ∷ b':' ∷ b'p' ∷ []) ∷ []

-- What it makes.
abbrev made : NspConf
made = record zeroed {
  proxysrv = b'1' ∷ [];
  proxyport = 1080;
  dnssrv = b'1' ∷ b'.' ∷ b'1' ∷ b'.' ∷ b'1' ∷ b'.' ∷ b'1' ∷ [];
  dnsport = 53;
  dnstype = tcp;
  proxyuser = b'u' ∷ [];
  proxypass = b'p' ∷ [];
}

line-made : main_conf env line true ≡ some (ok made)
unfolding main_conf options_loop one_option configure parse_auth strchr set_proxy parse_dns
    dns_parts ◌===◌
line-made = refl

main_conf-ConfValid_example : ConfValid made
main_conf-ConfValid_example = main_conf-ConfValid env line true made env-EnvLaws line-made

abbrev fresh : ProxySocks
fresh = record {
  kind = tcp_forward;
  phase = send_method;
  hsbuff = [];
  events = 4;
  addr = b'a' ∷ [];
  port = 80;
  relay = none;
}

main_conf-assemble_example :
    (s : List ℕ) × (assemble made env.libc fresh ≡ some s) × (length s ≤ capacity)
main_conf-assemble_example =
    main_conf-assemble env line true made fresh env-EnvLaws line-made (omega arith)

add_direct_cidr-decimal_example :
    add_direct_cidr numeric empty_conf (b'a' ∷ b'/' ∷ b'2' ∷ b'4' ∷ []) ≡ (
      if ltb (max_prefix (item_family (b'a' ∷ []))) 24
      then exits bad_prefix
      else add_address empty_conf
          (item_family (b'a' ∷ []))
          24
          (pton numeric (item_family (b'a' ∷ [])) (b'a' ∷ [])))
add_direct_cidr-decimal_example =
    add_direct_cidr-decimal numeric empty_conf (b'a' ∷ []) b'2' (b'4' ∷ []) (λ e. cc (e)) refl
      (refl, (refl, tt)) (omega arith)

-- A comment, a domain, and an end without a newline.
abbrev comment_line : List ℕ
comment_line = b'#' ∷ b'c' ∷ []

abbrev domain_line : List ℕ
domain_line = b'a' ∷ b'.' ∷ b'b' ∷ []

load_file-lines_example :
    load_file add_domain 9 (some (file_of (comment_line ∷ domain_line ∷ []) [])) false empty_conf
    ≡ (if false
        then some (
            and_then
              (add_all_items add_domain (comment_line ∷ domain_line ∷ []) empty_conf)
              (λ c. exits read_failed))
        else some (add_all_items add_domain (comment_line ∷ domain_line ∷ [] ∷ []) empty_conf))
load_file-lines_example =
    load_file-lines add_domain 9 (comment_line ∷ domain_line ∷ []) [] false empty_conf
      (
        record { short = omega arith; one_line = refl; text = refl },
        (record { short = omega arith; one_line = refl; text = refl }, tt),
      )
      (record { short = omega arith; one_line = refl; text = refl }) (omega arith)

abbrev with_u : NspConf
with_u = record empty_conf { proxyuser = b'u' ∷ []; proxypass = [] }

parse_auth_iff_example : (parse_auth true empty_conf (b'u' ∷ b':' ∷ []) ≡ ok with_u) ↔ (
    (user : List ℕ) × (pass : List ℕ) × (b'u' ∷ b':' ∷ [] ≡ user ++ (b':' ∷ pass))
    × AuthOk true user pass
    × (with_u ≡ record empty_conf { proxyuser = user; proxypass = pass }))
parse_auth_iff_example = parse_auth_iff true empty_conf with_u (b'u' ∷ b':' ∷ [])

parse_dns-plain_example :
    (parse_dns empty_conf (scheme true ++ (b'a' ∷ []))
      ≡ ok (record empty_conf { dnssrv = b'a' ∷ []; dnsport = 53; dnstype = tcp }))
    × (parse_dns empty_conf (scheme true ++ (b'a' ∷ b':' ∷ b'5' ∷ b'4' ∷ [])) ≡ (
        if ltb 0 54 && leb 54 65535
        then ok (record empty_conf { dnssrv = b'a' ∷ []; dnsport = 54; dnstype = tcp })
        else exits bad_dns_port))
parse_dns-plain_example =
    parse_dns-plain empty_conf true (b'a' ∷ []) b'5' (b'4' ∷ [])
      (record { proper = λ e. cc (e); short = omega arith; no_colon = refl; no_bracket = refl })
      (refl, (refl, tt)) (omega arith)

-- A line of 1023 bytes.
abbrev long_line : List ℕ
long_line = replicate 1023 b'a'

load_file-long_example :
    load_file add_domain 1025 (some (file_of [] (long_line ++ []))) false empty_conf
    ≡ some (exits line_too_long)
load_file-long_example =
    load_file-long add_domain 1025 [] long_line [] false empty_conf empty_conf tt refl refl refl
      refl (omega arith)
