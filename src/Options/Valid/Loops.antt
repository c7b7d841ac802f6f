-- ===== src/Options/Valid/Loops.antt =====
-- The loop of src/main.c over the lines of a file leaves a configuration valid.
use nsproxy.Common.{
  if_cases, ◌&&◌, ℕ, zero, suc, ◌≡◌, refl, sym, ap, Bool, true, false, Option, none, some, List, [],
  ◌∷◌, if◌then◌else◌, ◌===◌,
}
use nsproxy.Rules.Conf.{NspConf, CidrMode, whitelist, blacklist}
use nsproxy.Options.{Result, ok, exits, bad_mode}
use nsproxy.Options.Outcome.{ok_inj}
use nsproxy.Options.Files.{
  line_size, fgets, at_eof, add_line, next_line, lines_loop, after_lines, load_file,
}
use nsproxy.Options.Main.{
  Settings, set_mode, whitelist_name, blacklist_name, with_conf, with_loaded,
}
use nsproxy.Options.Valid.{ConfValid}
use nsproxy.Options.Valid.Rules.{Keeps, line_valid}

abbrev some_or {ℓ} : {A : Type ℓ} → A → Option A → A
some_or d none = d
some_or d (some a) = a

pub some_inj {ℓ} : {A : Type ℓ} {a b : A} → some a ≡ some b → a ≡ b
some_inj {a = a} h = ap (some_or a) h

next_line-ok :
    (t : Result NspConf) (f : NspConf → Option (Result NspConf)) (c : NspConf)
    → next_line t f ≡ some (ok c)
    → (d : NspConf) × (t ≡ ok d) × (f d ≡ some (ok c))
next_line-ok (ok d) f c h = (d, refl, h)
next_line-ok (exits e) f c h = absurd (cc (some_inj h))

loop_valid :
    (add : NspConf → List ℕ → Result NspConf) (failed : Bool) (fuel : ℕ) (s : List ℕ)
    (conf c : NspConf)
    → Keeps add
    → ConfValid conf
    → lines_loop add failed fuel s conf ≡ some (ok c)
    → ConfValid c
unfolding lines_loop
loop_valid add failed zero s conf c k v h = absurd (cc (h))
loop_valid add failed (suc fuel) [] conf c k v h = rw (sym (ok_inj (some_inj h))) v
loop_valid add failed (suc fuel) (b ∷ s) conf c k v h =
    let r = fgets line_size (b ∷ s) in
    if_cases (λ o. o ≡ some (ok c) → ConfValid c) (failed && at_eof r.0) _ _
      (λ _ (g : after_lines false (some (ok conf)) ≡ some (ok c)). rw (sym (ok_inj (some_inj g))) v)
      (λ _ g.
        let (d, e, f) = next_line-ok (add_line add conf r.0) (lines_loop add failed fuel r.1) c g in
        loop_valid add failed fuel r.1 d c k (line_valid add conf d r.0 k v e) f)
      h

pub file_valid :
    (add : NspConf → List ℕ → Result NspConf) (fuel : ℕ) (o : Option (List ℕ)) (failed : Bool)
    (conf c : NspConf)
    → Keeps add
    → ConfValid conf
    → load_file add fuel o failed conf ≡ some (ok c)
    → ConfValid c
unfolding load_file
file_valid add fuel none failed conf c k v h = absurd (cc (some_inj h))
file_valid add fuel (some s) failed conf c k v h =
    by_loop failed (lines_loop add failed fuel s conf) refl h
  where
    by_loop :
        (b : Bool) (o : Option (Result NspConf))
        → lines_loop add failed fuel s conf ≡ o
        → after_lines b o ≡ some (ok c)
        → ConfValid c
    by_loop b none e h = absurd (cc (h))
    by_loop b (some (exits x)) e h = absurd (cc (some_inj h))
    by_loop true (some (ok d)) e h = absurd (cc (some_inj h))
    by_loop false (some (ok d)) e h =
        rw (sym (ok_inj (some_inj h))) (loop_valid add failed fuel s conf d k v e)

pub with_conf-ok :
    (st s : Settings) (r : Result NspConf)
    → with_conf st r ≡ ok s
    → (c : NspConf) × (r ≡ ok c) × (s.conf ≡ c)
with_conf-ok st s (ok c) h = (c, refl, sym (ap (λ (x : Settings). x.conf) (ok_inj h)))
with_conf-ok st s (exits e) h = absurd (cc (h))

pub with_loaded-ok :
    (st s : Settings) (o : Option (Result NspConf))
    → with_loaded st o ≡ some (ok s)
    → (c : NspConf) × (o ≡ some (ok c)) × (s.conf ≡ c)
with_loaded-ok st s none h = absurd (cc (h))
with_loaded-ok st s (some (ok c)) h =
    (c, refl, sym (ap (λ (x : Settings). x.conf) (ok_inj (some_inj h))))
with_loaded-ok st s (some (exits e)) h = absurd (cc (some_inj h))

pub mode_valid :
    (conf c : NspConf) (s : List ℕ) → ConfValid conf → set_mode conf s ≡ ok c → ConfValid c
mode_valid conf c s v = by_name (s === whitelist_name) (s === blacklist_name)
  where
    changed : (m : CidrMode) → ConfValid (record conf { direct_cidr_mode = m })
    changed m = record {
      user = v.user;
      pass = v.pass;
      server = v.server;
      server_port = v.server_port;
      name_server = v.name_server;
      name_server_port = v.name_server_port;
      blocks = v.blocks;
    }

    by_name :
        (a b : Bool)
        → (if a
            then ok (record conf { direct_cidr_mode = whitelist })
            else (if b then ok (record conf { direct_cidr_mode = blacklist }) else exits bad_mode))
          ≡ ok c
        → ConfValid c
    by_name true b h = rw (sym (ok_inj h)) (changed whitelist)
    by_name false true h = rw (sym (ok_inj h)) (changed blacklist)
    by_name false false h = absurd (cc (h))
