-- ===== src/Rules/Domains.antt =====
-- src/main.c: nspconf_add_direct_domain() and nspconf_domain_matches().
pub mod Match
pub mod Add
use nsproxy.Common.{
  ℕ, zero, suc, ◌+◌, ◌-◌, ◌*◌, ◌/◌, ◌%◌, ◌^◌, ◌≤◌, ◌<◌, bit_and, bit_or, ◌≡◌, refl, sym, ap, ◌∙◌,
  ◌≢◌, ◌↔◌, ◌⊎◌, inl, inr, Bool, true, false, not, ◌&&◌, ◌||◌, Option, none, some, List, [], ◌∷◌,
  ◌++◌, map, reverse, append-nil, append_assoc, arith, ltb, leb, ◌==◌, if◌then◌else◌, ltb→lt,
  lt→ltb, leb→le, ==_iff, ◌===◌, ===→eq, ===_refl, Bool-cases, Option-cases, ||_cases, ||_right,
  &&_parts, length, get_elem?, get_or, take, drop, replicate, any, All, length-append,
  length-reverse, length-replicate, length-take, length-drop, take-append-drop, take-append,
  drop-append, take_all, get_elem?-append, get_elem?_below, any-append, All-append, any_mem,
}
use nsproxy.Rules.Conf.{NspConf, direct_domain_count, servname_maxlen}
use nsproxy.Rules.Text.{trim_ascii_space, normalize_domain}
use nsproxy.Rules.Capacity.{grown}

-- `strcmp(domain + domain_len - suffix_len, suffix) == 0` with a dot in front of it, for a domain
-- longer than the suffix. A byte that is not there reads as 0, the NUL.
pub dot_suffix : List ℕ → List ℕ → Bool
dot_suffix domain suffix =
    if leb (length domain) (length suffix)
    then false
    else (drop (length domain - length suffix) domain === suffix
        && get_or domain (length domain - length suffix - 1) 0 == b'.')

plain_matches : List ℕ → List ℕ → Bool
unfolding dot_suffix
plain_matches normalized rule = normalized === rule || dot_suffix normalized rule

-- `rule[0] == '*' && rule[1] == '.'`
star_matches : List ℕ → List ℕ → Bool
unfolding plain_matches
star_matches normalized [] = plain_matches normalized (b'*' ∷ [])
star_matches normalized (c ∷ suffix) =
    if c == b'.' then dot_suffix normalized suffix else plain_matches normalized (b'*' ∷ c ∷ suffix)

-- One round of the loop over the rules.
unfoldable pub rule_matches : List ℕ → List ℕ → Bool
unfolding star_matches
rule_matches normalized [] = plain_matches normalized []
rule_matches normalized (c ∷ rule) =
    if c == b'='
    then normalized === rule
    else (if c == b'*' then star_matches normalized rule else plain_matches normalized (c ∷ rule))

-- snprintf() into a buffer of SERVNAME_MAXLEN + 1 bytes keeps the first SERVNAME_MAXLEN.
unfoldable pub nspconf_domain_matches : NspConf → List ℕ → Bool
unfolding rule_matches normalize_domain
nspconf_domain_matches conf domain =
    any (rule_matches (normalize_domain (take servname_maxlen domain))) conf.direct_domains

-- What is stored for a rule as the user wrote it.
unfoldable pub rule_text : List ℕ → List ℕ
unfolding trim_ascii_space normalize_domain
rule_text domain = normalize_domain (trim_ascii_space domain)

-- `*trimmed == '\0' || strcmp(trimmed, "=") == 0`
unfoldable pub is_blank : List ℕ → Bool
is_blank rule = rule === [] || rule === (b'=' ∷ [])

unfoldable pub add_rule : NspConf → List ℕ → NspConf
unfolding is_blank grown
add_rule conf rule =
    if is_blank rule
    then conf
    else (if any (λ r. r === rule) conf.direct_domains then conf else (record conf {
      direct_domain_capacity =
          if direct_domain_count conf == conf.direct_domain_capacity
          then grown conf.direct_domain_capacity
          else conf.direct_domain_capacity;
      direct_domains = conf.direct_domains ++ (rule ∷ []);
    }))

unfoldable pub nspconf_add_direct_domain : NspConf → List ℕ → NspConf
unfolding add_rule rule_text
nspconf_add_direct_domain conf domain = add_rule conf (rule_text domain)
