-- ===== src/Options/Finish.antt =====
-- main() of src/main.c behind the loop over the options.
use nsproxy.Common.{
  ℕ, Bool, true, false, not, ◌&&◌, Option, none, some, List, [], ◌∷◌, ◌++◌, if◌then◌else◌,
}
use nsproxy.Rules.Conf.{NspConf, ProxyType, socks5, http, direct}
use nsproxy.Options.{Result, ok, exits, no_command, http_and_direct, bad_server, and_then}
use nsproxy.Options.Auth.{parse_auth}
use nsproxy.Options.Dns.{parse_dns, tcp_scheme}
use nsproxy.Options.Main.{Opt, Settings, Env, unset, options_loop}

abbrev pub or_default : List ℕ → Option (List ℕ) → List ℕ
or_default d none = d
or_default d (some s) = s

-- "127.0.0.1", "8080", "1080" and "tcp://1.1.1.1".
abbrev pub default_server : List ℕ
default_server = b'1' ∷ b'2' ∷ b'7' ∷ b'.' ∷ b'0' ∷ b'.' ∷ b'0' ∷ b'.' ∷ b'1' ∷ []

abbrev pub default_port : Bool → List ℕ
default_port true = b'8' ∷ b'0' ∷ b'8' ∷ b'0' ∷ []
default_port false = b'1' ∷ b'0' ∷ b'8' ∷ b'0' ∷ []

abbrev pub default_dns : List ℕ
default_dns = tcp_scheme ++ (b'1' ∷ b'.' ∷ b'1' ∷ b'.' ∷ b'1' ∷ b'.' ∷ b'1' ∷ [])

abbrev pub set_credentials : Bool → NspConf → Option (List ℕ) → Result NspConf
set_credentials ishttp conf none = ok conf
set_credentials ishttp conf (some s) = parse_auth ishttp conf s

abbrev pub proxy_of : Bool → Bool → ProxyType
proxy_of true isdirect = http
proxy_of false true = direct
proxy_of false false = socks5

abbrev pub set_server : NspConf → Option (List ℕ × ℕ) → Result NspConf
set_server conf none = exits bad_server
set_server conf (some (addr, port)) = ok (record conf { proxysrv = addr; proxyport = port })

unfoldable pub set_proxy : Env → Settings → NspConf → Result NspConf
set_proxy env st conf =
    let typed : NspConf = record conf { proxytype = proxy_of st.ishttp st.isdirect } in
    if st.ishttp && st.isdirect
    then exits http_and_direct
    else (if st.isdirect
        then ok typed
        else set_server typed (
            env.resolve (or_default default_server st.serv)
              (or_default (default_port st.ishttp) st.port)))

unfoldable pub configure : Env → Settings → Result NspConf
configure env st =
    and_then (set_credentials st.ishttp st.conf st.auth)
      (λ c. and_then (set_proxy env st c) (λ d. parse_dns d (or_default default_dns st.dns)))

abbrev pub after_options : Env → Bool → Option (Result Settings) → Option (Result NspConf)
after_options env command none = none
after_options env command (some (exits e)) = some (exits e)
after_options env command (some (ok st)) =
    some (if not command then exits no_command else configure env st)

-- `command` says whether a command follows the options.
unfoldable pub main_conf : Env → List Opt → Bool → Option (Result NspConf)
main_conf env opts command = after_options env command (options_loop env opts unset)
