-- ===== src/Options/Auth.antt =====
-- The option -a in main() of src/main.c: the name and the password.
use nsproxy.Common.{
  ℕ, ◌≤◌, ◌≡◌, refl, sym, ◌↔◌, Bool, true, false, not, ◌&&◌, ◌||◌, Option, none, some, List, ◌∷◌,
  ◌++◌, ltb, if◌then◌else◌, ltb-false, le_of_ltb, length,
}
use nsproxy.Rules.Conf.{NspConf, auth_maxlen}
use nsproxy.Options.{Result, ok, exits, bad_auth, auth_too_long, is_nil, strchr, has_byte}
use nsproxy.Options.Outcome.{ok_inj, guard_passed}
use nsproxy.Options.Text.{||_false, CutAt, strchr-CutAt, strchr-append}

abbrev pub set_auth : Bool → NspConf → Option (List ℕ × List ℕ) → Result NspConf
set_auth ishttp conf none = exits bad_auth
set_auth ishttp conf (some (user, pass)) =
    if is_nil user || (is_nil pass && not ishttp)
    then exits bad_auth
    else (if ltb auth_maxlen (length user) || ltb auth_maxlen (length pass)
        then exits auth_too_long
        else ok (record conf { proxyuser = user; proxypass = pass }))

unfoldable pub parse_auth : Bool → NspConf → List ℕ → Result NspConf
parse_auth ishttp conf auth = set_auth ishttp conf (strchr b':' auth)

-- What a name and a password must be.
pub record AuthOk (ishttp : Bool) (user pass : List ℕ) : Type 0 where
  pub no_colon : has_byte b':' user ≡ false
  pub has_name : is_nil user ≡ false
  pub has_pass : is_nil pass ≡ true → ishttp ≡ true
  pub short : (length user ≤ auth_maxlen) × (length pass ≤ auth_maxlen)

unprotected :
    (nopass ishttp : Bool) → (nopass && not ishttp) ≡ false → nopass ≡ true → ishttp ≡ true
unprotected true true h e = refl
unprotected true false h e = absurd (cc (h))
unprotected false b h e = absurd (cc (e))

protected :
    (nopass ishttp : Bool) → (nopass ≡ true → ishttp ≡ true) → (nopass && not ishttp) ≡ false
protected true true h = refl
protected true false h = absurd (cc (h refl))
protected false b h = refl

set_auth-AuthOk :
    (ishttp : Bool) (conf c : NspConf) (user pass : List ℕ)
    → has_byte b':' user ≡ false
    → set_auth ishttp conf (some (user, pass)) ≡ ok c
    → AuthOk ishttp user pass × (c ≡ record conf { proxyuser = user; proxypass = pass })
set_auth-AuthOk ishttp conf c user pass plain h =
    let (p, h1) = guard_passed _ bad_auth _ h in
    let (q, h2) = guard_passed _ auth_too_long _ h1 in
    let named = ||_false (is_nil user) (is_nil pass && not ishttp) p in
    let long = ||_false (ltb auth_maxlen (length user)) (ltb auth_maxlen (length pass)) q in
    (
      record {
        no_colon = plain;
        has_name = named.0;
        has_pass = λ e. unprotected (is_nil pass) ishttp named.1 e;
        short = (le_of_ltb _ _ long.0, le_of_ltb _ _ long.1);
      },
      sym (ok_inj h2),
    )

-- The argument is accepted exactly when it is a name of at least one byte without a colon, a colon,
-- and a password that is empty at most for an HTTP proxy, with at most 255 bytes each; then these are
-- the name and the password of the configuration, and nothing else changes.
pub parse_auth_iff :
    (ishttp : Bool) (conf c : NspConf) (auth : List ℕ)
    → (parse_auth ishttp conf auth ≡ ok c) ↔ (
        (user : List ℕ) × (pass : List ℕ) × (auth ≡ user ++ (b':' ∷ pass))
        × AuthOk ishttp user pass
        × (c ≡ record conf { proxyuser = user; proxypass = pass }))
unfolding parse_auth
parse_auth_iff ishttp conf c auth = (forth, back)
  where
    forth :
        set_auth ishttp conf (strchr b':' auth) ≡ ok c
        → (user : List ℕ) × (pass : List ℕ) × (auth ≡ user ++ (b':' ∷ pass))
          × AuthOk ishttp user pass
          × (c ≡ record conf { proxyuser = user; proxypass = pass })
    forth = by_cut (strchr b':' auth) (strchr-CutAt b':' auth)
      where
        by_cut :
            (o : Option (List ℕ × List ℕ))
            → CutAt b':' auth o
            → set_auth ishttp conf o ≡ ok c
            → (user : List ℕ) × (pass : List ℕ) × (auth ≡ user ++ (b':' ∷ pass))
              × AuthOk ishttp user pass
              × (c ≡ record conf { proxyuser = user; proxypass = pass })
        by_cut none k h = absurd (cc (h))
        by_cut (some (user, pass)) (g, k) h =
            let (a, e) = set_auth-AuthOk ishttp conf c user pass k h in (user, pass, g, a, e)

    back :
        ((user : List ℕ) × (pass : List ℕ) × (auth ≡ user ++ (b':' ∷ pass))
          × AuthOk ishttp user pass
          × (c ≡ record conf { proxyuser = user; proxypass = pass }))
        → set_auth ishttp conf (strchr b':' auth) ≡ ok c
    back (user, pass, g, a, e) =
        let long_user = ltb-false auth_maxlen (length user) a.short.0 in
        let long_pass = ltb-false auth_maxlen (length pass) a.short.1 in
        let guarded = protected (is_nil pass) ishttp a.has_pass in
        rw
          (g, strchr-append b':' user pass a.no_colon, a.has_name, guarded, e, long_user, long_pass)
          refl
