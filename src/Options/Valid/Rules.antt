-- ===== src/Options/Valid/Rules.antt =====
-- The rules that the options and the files of src/main.c add leave a configuration valid.
use nsproxy.Common.{
  ℕ, ◌-◌, ◌^◌, ◌≤◌, ◌≡◌, refl, sym, Bool, true, false, not, ◌||◌, Option, none, some, List, [], ◌∷◌,
  arith, ltb, leb, if◌then◌else◌, ◌===◌, if_cases, le_of_ltb, length, replicate, any, length-append,
  length-replicate, All-append,
}
use nsproxy.Rules.Conf.{NspConf, Family, inet, inet6}
use nsproxy.Rules.Cidr.{nspconf_add_direct_cidr_raw, same_block}
use nsproxy.Rules.Domains.{nspconf_add_direct_domain, add_rule, is_blank, rule_text}
use nsproxy.Rules.Text.{trim_ascii_space}
use nsproxy.Socks.Codec.{Inet, InetLaws}
use nsproxy.Options.{
  Result, ok, bad_block, bad_prefix, line_too_long, is_nil, strchr, has_byte, strtol,
}
use nsproxy.Options.Outcome.{ok_inj, guard_passed, and_then-ok}
use nsproxy.Options.Text.{||_false}
use nsproxy.Options.Cidr.{
  int_bits, max_prefix, pton, in_sixteen, item_family, add_address, add_parts, add_direct_cidr,
  add_items,
}
use nsproxy.Options.Files.{add_text, add_line, add_domain}
use nsproxy.Options.Valid.{BlockValid, ConfValid}

abbrev zero_byte : ℕ
zero_byte = 0

pton_size :
    (libc : Inet) (f : Family) (s b : List ℕ)
    → InetLaws libc
    → pton libc f s ≡ some b
    → length b ≤ 16
pton_size libc inet s b laws h = omega (arith, laws.pton4_size s b h)
pton_size libc inet6 s b laws h = omega (arith, laws.pton6_size s b h)

add_raw_valid :
    (conf : NspConf) (f : Family) (n : ℕ) (addr : List ℕ)
    → BlockValid (record { family = f; prefixlen = n; addr = addr })
    → ConfValid conf
    → ConfValid (nspconf_add_direct_cidr_raw conf f n addr)
unfolding nspconf_add_direct_cidr_raw
add_raw_valid conf f n addr b v =
    if_cases ConfValid
      (any (λ c. same_block c (record { family = f; prefixlen = n; addr = addr }))
        conf.direct_cidrs)
      conf _ (λ _. v)
      (λ _. record {
        user = v.user;
        pass = v.pass;
        server = v.server;
        server_port = v.server_port;
        name_server = v.name_server;
        name_server_port = v.name_server_port;
        blocks = All-append BlockValid conf.direct_cidrs _ v.blocks (b, tt);
      })

address_valid :
    (conf c : NspConf) (f : Family) (n : ℕ) (o : Option (List ℕ))
    → n ≤ max_prefix f
    → ((b : List ℕ) → o ≡ some b → length b ≤ 16)
    → ConfValid conf
    → add_address conf f n o ≡ ok c
    → ConfValid c
address_valid conf c f n none within size v h = absurd (cc (h))
address_valid conf c f n (some b) within size v h = rw (sym (ok_inj h)) (
    add_raw_valid conf f n (in_sixteen b)
      (record {
        prefix = within;
        sixteen = omega (
          arith,
          size b refl,
          length-append b (replicate (16 - length b) 0),
          length-replicate (16 - length b) zero_byte,
        );
      })
      v)

parts_valid :
    (libc : Inet) (conf c : NspConf) (item prefix : List ℕ)
    → InetLaws libc
    → ConfValid conf
    → add_parts libc conf item prefix ≡ ok c
    → ConfValid c
unfolding add_parts
parts_valid libc conf c item prefix laws v h =
    let (_, h1) = guard_passed (is_nil item || is_nil prefix) bad_block _ h in
    let (_, h2) = guard_passed (has_byte b'/' prefix) bad_block _ h1 in
    let (_, h3) = guard_passed (not (is_nil (strtol prefix).1)) bad_prefix _ h2 in
    let (p, h4) = guard_passed _ bad_prefix _ h3 in
    let n = int_bits (strtol prefix).0 in
    let small = (||_false (leb (2 ^ 31) n) (ltb (max_prefix (item_family item)) n) p).1 in
    address_valid conf c (item_family item) n (pton libc (item_family item) item)
      (le_of_ltb _ _ small) (λ b e. pton_size libc (item_family item) item b laws e) v h4

-- An add that leaves a configuration valid.
abbrev pub Keeps : (NspConf → List ℕ → Result NspConf) → Type 0
Keeps add = (conf c : NspConf) (item : List ℕ) → ConfValid conf → add conf item ≡ ok c → ConfValid c

pub cidr-Keeps : (libc : Inet) → InetLaws libc → Keeps (add_direct_cidr libc)
unfolding add_direct_cidr
cidr-Keeps libc laws conf c item v h = by_slash (strchr b'/' item) refl h
  where
    by_slash :
        (o : Option (List ℕ × List ℕ))
        → strchr b'/' item ≡ o
        → add_direct_cidr libc conf item ≡ ok c
        → ConfValid c
    by_slash none e h = absurd (cc (rw (add_direct_cidr, e) at h))
    by_slash (some (a, b)) e h = parts_valid libc conf c a b laws v (rw (add_direct_cidr, e) at h)

pub domain-Keeps : Keeps add_domain
unfolding nspconf_add_direct_domain add_rule
domain-Keeps conf c item v h = rw (sym (ok_inj h)) (
    if_cases ConfValid (is_blank (rule_text item)) conf _ (λ _. v)
      (λ _.
        if_cases ConfValid (any (λ r. r === rule_text item) conf.direct_domains) conf _ (λ _. v)
          (λ _. record {
            user = v.user;
            pass = v.pass;
            server = v.server;
            server_port = v.server_port;
            name_server = v.name_server;
            name_server_port = v.name_server_port;
            blocks = v.blocks;
          })))

if_Keeps :
    (b : Bool) (conf c : NspConf) (r : Result NspConf)
    → ConfValid conf
    → (r ≡ ok c → ConfValid c)
    → (if b then ok conf else r) ≡ ok c
    → ConfValid c
if_Keeps true conf c r v f h = rw (sym (ok_inj h)) v
if_Keeps false conf c r v f h = f h

pub items_valid :
    (add : NspConf → List ℕ → Result NspConf) (ss : List (List ℕ)) (conf c : NspConf)
    → Keeps add
    → ConfValid conf
    → add_items add ss conf ≡ ok c
    → ConfValid c
unfolding add_items
items_valid add [] conf c k v h = rw (sym (ok_inj h)) v
items_valid add (s ∷ ss) conf c k v h =
    let item = trim_ascii_space s in
    let (d, e, f) =
      and_then-ok (if is_nil item then ok conf else add conf item) (add_items add ss) h in
    items_valid add ss d c k (if_Keeps (is_nil item) conf d (add conf item) v (k conf d item v) e) f

pub line_valid :
    (add : NspConf → List ℕ → Result NspConf) (conf c : NspConf) (s : List ℕ)
    → Keeps add
    → ConfValid conf
    → add_line add conf s ≡ ok c
    → ConfValid c
unfolding add_line add_text
line_valid add conf c s k v h =
    let (_, f) = guard_passed _ line_too_long _ h in if_Keeps _ conf c _ v (k conf c _ v) f
