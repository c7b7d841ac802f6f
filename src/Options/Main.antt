-- ===== src/Options/Main.antt =====
-- main() of src/main.c from the options to the configuration. getopt_long() gives the options one after
-- the other; files and the resolver are arguments.
use nsproxy.Common.{
  ℕ, suc, Bool, true, false, Option, none, some, List, [], ◌∷◌, if◌then◌else◌, ◌===◌, length,
}
use nsproxy.Rules.Conf.{NspConf, socks5, off, whitelist, blacklist}
use nsproxy.Socks.Codec.{Inet}
use nsproxy.Options.{Result, ok, exits, bad_mode, bad_option, help_shown, and_then}
use nsproxy.Options.Cidr.{parse_direct_cidrs}
use nsproxy.Options.Files.{load_direct_cidrs_file, load_direct_domains_file}

-- An option of the command line, with its argument; `unknown` is what getopt_long() refuses.
pub data Opt : Type 0 where
  help use_http use_direct no_half_close use_ipv6 verbose quiet unknown : Opt
  server port dns auth cidrs cidr_file mode domain_file log_file : List ℕ → Opt

-- The variables of main() that the options set.
pub record Settings : Type 0 where
  pub conf : NspConf
  pub serv : Option (List ℕ)
  pub port : Option (List ℕ)
  pub dns : Option (List ℕ)
  pub auth : Option (List ℕ)
  pub ishttp : Bool
  pub isdirect : Bool

-- inet_pton(); the files, each with its bytes, if it opens, and whether reading it fails; and
-- getaddrinfo() with inet_ntop(), for an IPv4 or IPv6 address.
pub record Env : Type 0 where
  pub libc : Inet
  pub file : List ℕ → Option (List ℕ)
  pub failed : List ℕ → Bool
  pub resolve : List ℕ → List ℕ → Option (List ℕ × ℕ)

-- `{ 0 }`
abbrev pub zeroed : NspConf
zeroed = record {
  proxysrv = [];
  proxyport = 0;
  proxytype = socks5;
  dnssrv = [];
  dnsport = 0;
  dnstype = off;
  proxyuser = [];
  proxypass = [];
  ipv6 = 0;
  no_proxy_half_close = 0;
  direct_cidr_capacity = 0;
  direct_cidrs = [];
  direct_cidr_mode = whitelist;
  direct_domain_capacity = 0;
  direct_domains = [];
}

abbrev pub unset : Settings
unset = record {
  conf = zeroed;
  serv = none;
  port = none;
  dns = none;
  auth = none;
  ishttp = false;
  isdirect = false;
}

abbrev pub file_size : Option (List ℕ) → ℕ
file_size none = 0
file_size (some s) = length s

-- One unit of fuel more than the file has bytes.
abbrev pub fuel_for : Env → List ℕ → ℕ
fuel_for env path = suc (file_size (env.file path))

-- "whitelist" and "blacklist".
abbrev pub list_name : List ℕ
list_name = b'l' ∷ b'i' ∷ b's' ∷ b't' ∷ []

abbrev pub whitelist_name : List ℕ
whitelist_name = b'w' ∷ b'h' ∷ b'i' ∷ b't' ∷ b'e' ∷ list_name

abbrev pub blacklist_name : List ℕ
blacklist_name = b'b' ∷ b'l' ∷ b'a' ∷ b'c' ∷ b'k' ∷ list_name

abbrev pub set_mode : NspConf → List ℕ → Result NspConf
set_mode conf arg =
    if arg === whitelist_name
    then ok (record conf { direct_cidr_mode = whitelist })
    else (if arg === blacklist_name
        then ok (record conf { direct_cidr_mode = blacklist })
        else exits bad_mode)

abbrev pub with_conf : Settings → Result NspConf → Result Settings
with_conf st r = and_then r (λ c. ok (record st { conf = c }))

abbrev pub with_loaded : Settings → Option (Result NspConf) → Option (Result Settings)
with_loaded st none = none
with_loaded st (some r) = some (with_conf st r)

-- One round of the loop over the options; `none` means that a file's loop has no end.
unfoldable pub one_option : Env → Opt → Settings → Option (Result Settings)
one_option env help st = some (exits help_shown)
one_option env use_http st = some (ok (record st { ishttp = true }))
one_option env use_direct st = some (ok (record st { isdirect = true }))
one_option env no_half_close st =
    let c : NspConf = record st.conf { no_proxy_half_close = 1 } in
    some (ok (record st { conf = c }))
one_option env use_ipv6 st =
    let c : NspConf = record st.conf { ipv6 = 1 } in some (ok (record st { conf = c }))
one_option env verbose st = some (ok st)
one_option env quiet st = some (ok st)
one_option env unknown st = some (exits bad_option)
one_option env (server s) st = some (ok (record st { serv = some s }))
one_option env (port s) st = some (ok (record st { port = some s }))
one_option env (dns s) st = some (ok (record st { dns = some s }))
one_option env (auth s) st = some (ok (record st { auth = some s }))
one_option env (log_file s) st = some (ok st)
one_option env (cidrs s) st = some (with_conf st (parse_direct_cidrs env.libc st.conf s))
one_option env (mode s) st = some (with_conf st (set_mode st.conf s))
one_option env (cidr_file s) st =
    with_loaded st
      (load_direct_cidrs_file env.libc (fuel_for env s) (env.file s) (env.failed s) st.conf)
one_option env (domain_file s) st =
    with_loaded st (load_direct_domains_file (fuel_for env s) (env.file s) (env.failed s) st.conf)

abbrev pub then_rest :
    Option (Result Settings) → (Settings → Option (Result Settings)) → Option (Result Settings)
then_rest none rest = none
then_rest (some (ok st)) rest = rest st
then_rest (some (exits e)) rest = some (exits e)

unfoldable pub options_loop : Env → List Opt → Settings → Option (Result Settings)
options_loop env [] st = some (ok st)
options_loop env (o ∷ os) st = then_rest (one_option env o st) (options_loop env os)
