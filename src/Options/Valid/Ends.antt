-- ===== src/Options/Valid/Ends.antt =====
-- Every command line of src/main.c has an end, and what goes out to a SOCKS5 server fits in its buffer.
use nsproxy.Common.{
  ℕ, suc, ◌≤◌, ◌≡◌, refl, Bool, not, Option, none, some, List, [], ◌∷◌, arith, if◌then◌else◌,
  length,
}
use nsproxy.Rules.Conf.{NspConf}
use nsproxy.Socks.Handshake.{ProxySocks, assemble, capacity}
use nsproxy.Socks.Handshake.Output.{assemble-Fits}
use nsproxy.Options.{Result, ok, exits, no_command}
use nsproxy.Options.Cidr.{add_direct_cidr}
use nsproxy.Options.Files.{load_file, add_domain, load_direct_cidrs_file, load_direct_domains_file}
use nsproxy.Options.Files.Laws.{load_file-ends}
use nsproxy.Options.Main.{
  Opt, Settings, Env, with_conf, with_loaded, file_size, one_option, then_rest, options_loop, unset,
  help, use_http, use_direct, no_half_close, use_ipv6, verbose, quiet, unknown, server, port, dns,
  auth, cidrs, cidr_file, mode, domain_file, log_file,
}
use nsproxy.Options.Finish.{configure, after_options, main_conf}
use nsproxy.Options.Valid.{EnvLaws}
use nsproxy.Options.Valid.Main.{main_conf-ConfValid}

abbrev Ends {ℓ} : {A : Type ℓ} → Option (Result A) → Type ℓ
Ends {A = A} o = (r : Result A) × (o ≡ some r)

load-Ends :
    (add : NspConf → List ℕ → Result NspConf) (o : Option (List ℕ)) (failed : Bool) (conf : NspConf)
    → Ends (load_file add (suc (file_size o)) o failed conf)
unfolding load_file
load-Ends add none failed conf = (_, refl)
load-Ends add (some s) failed conf = load_file-ends add (suc (length s)) s failed conf (omega arith)

loaded-Ends : (st : Settings) (o : Option (Result NspConf)) → Ends o → Ends (with_loaded st o)
loaded-Ends st o (r, e) = (with_conf st r, rw e refl)

one-Ends : (env : Env) (o : Opt) (st : Settings) → Ends (one_option env o st)
unfolding one_option load_direct_cidrs_file load_direct_domains_file
one-Ends env help st = (_, refl)
one-Ends env unknown st = (_, refl)
one-Ends env use_http st = (_, refl)
one-Ends env use_direct st = (_, refl)
one-Ends env no_half_close st = (_, refl)
one-Ends env use_ipv6 st = (_, refl)
one-Ends env verbose st = (_, refl)
one-Ends env quiet st = (_, refl)
one-Ends env (server a) st = (_, refl)
one-Ends env (port a) st = (_, refl)
one-Ends env (dns a) st = (_, refl)
one-Ends env (auth a) st = (_, refl)
one-Ends env (log_file a) st = (_, refl)
one-Ends env (cidrs a) st = (_, refl)
one-Ends env (mode a) st = (_, refl)
one-Ends env (cidr_file a) st =
    loaded-Ends st _ (load-Ends (add_direct_cidr env.libc) (env.file a) (env.failed a) st.conf)
one-Ends env (domain_file a) st =
    loaded-Ends st _ (load-Ends add_domain (env.file a) (env.failed a) st.conf)

options-Ends : (env : Env) (os : List Opt) (st : Settings) → Ends (options_loop env os st)
unfolding options_loop
options-Ends env [] st = (ok st, refl)
options-Ends env (o ∷ os) st =
    by_one (one_option env o st) (one-Ends env o st) (λ t. options-Ends env os t)
  where
    by_one :
        (p : Option (Result Settings))
        → Ends p
        → ((t : Settings) → Ends (options_loop env os t))
        → Ends (then_rest p (options_loop env os))
    by_one p (ok t, e) f = rw e (f t)
    by_one p (exits x, e) f = (exits x, rw e refl)

-- Whatever the options are and whatever is in the files, main() gets to a configuration or to an exit:
-- no loop over a file goes on for ever.
main_conf-ends :
    (env : Env) (opts : List Opt) (command : Bool)
    → (r : Result NspConf) × (main_conf env opts command ≡ some r)
unfolding main_conf
main_conf-ends env opts command =
    by_loop (options_loop env opts unset) (options-Ends env opts unset)
  where
    by_loop : (o : Option (Result Settings)) → Ends o → Ends (after_options env command o)
    by_loop o (ok st, e) = (if not command then exits no_command else configure env st, rw e refl)
    by_loop o (exits x, e) = (exits x, rw e refl)

-- With a configuration that main() has accepted, and a buffer within its bounds, the next message to a
-- SOCKS5 server is there and fits in the buffer, whatever was given for the name and the password.
pub main_conf-assemble :
    (env : Env) (opts : List Opt) (command : Bool) (conf : NspConf) (self : ProxySocks)
    → EnvLaws env
    → main_conf env opts command ≡ some (ok conf)
    → length self.hsbuff ≤ capacity
    → (s : List ℕ) × (assemble conf env.libc self ≡ some s) × (length s ≤ capacity)
main_conf-assemble env opts command conf self laws h buff =
    let v = main_conf-ConfValid env opts command conf laws h in
    assemble-Fits conf env.libc self laws.addresses
      (record { user = v.user; pass = v.pass; buff = buff })
