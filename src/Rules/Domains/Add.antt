-- ===== src/Rules/Domains/Add.antt =====
-- What nspconf_add_direct_domain() of src/main.c does to the rules.
use nsproxy.Common.{
  ℕ, ◌+◌, ◌^◌, ◌≤◌, ◌<◌, ◌≡◌, refl, ◌∙◌, inl, inr, true, false, not, ◌&&◌, ◌||◌, List, [], ◌∷◌,
  ◌++◌, arith, ◌===◌, ===→eq, ===_refl, Bool-cases, absorb, take, any, All, length-append,
  any-append, All-append, any_mem,
}
use mathlib.Core.Path.{subst}
use nsproxy.Rules.Conf.{NspConf, direct_domain_count, servname_maxlen}
use nsproxy.Rules.Text.{normalize_domain}
use nsproxy.Rules.Capacity.{lt-grown}
use nsproxy.Rules.Domains.{
  rule_matches, nspconf_domain_matches, rule_text, is_blank, add_rule, nspconf_add_direct_domain,
}

-- No rule stands twice in the list.
abbrev pub Distinct : List (List ℕ) → Type 0
Distinct [] = Unit {0}
Distinct (r ∷ rs) = (any (λ q. q === r) rs ≡ false) × Distinct rs

-- The rules are distinct, none is blank, and the array has room for them.
pub record DomainsValid (conf : NspConf) : Type 0 where
  pub distinct : Distinct conf.direct_domains
  pub nonblank : All (λ r. is_blank r ≡ false) conf.direct_domains
  pub within : direct_domain_count conf ≤ conf.direct_domain_capacity

===_comm : (x y : List ℕ) → (x === y) ≡ false → (y === x) ≡ false
===_comm x y h = elim (Bool-cases (y === x)) [
  | inl e ↦ cc (h, subst (λ z. (z === y) ≡ true) (===→eq y x e) (===_refl y))
  | inr e ↦ e
]

Distinct-snoc :
    (rs : List (List ℕ)) (r : List ℕ)
    → Distinct rs
    → any (λ q. q === r) rs ≡ false
    → Distinct (rs ++ (r ∷ []))
Distinct-snoc [] r d h = (refl, tt)
Distinct-snoc (x ∷ rs) r (fresh, d) h =
    let apart = ===_comm x r (ground arith) in
    (any-append (λ q. q === x) rs (r ∷ []) ∙ rw (fresh, apart), Distinct-snoc rs r d (ground arith))

-- An add keeps the rules distinct, nonblank and within the array, as long as the array does not
-- fill the address space.
pub add_domain-DomainsValid :
    (conf : NspConf) (domain : List ℕ)
    → DomainsValid conf
    → conf.direct_domain_capacity + 1 < 2 ^ 64
    → DomainsValid (nspconf_add_direct_domain conf domain)
unfolding nspconf_add_direct_domain add_rule
add_domain-DomainsValid conf domain v room =
    let r = rule_text domain in
    elim (Bool-cases (is_blank r)) [
      | inl blank ↦ rw blank v
      | inr proper ↦ elim (Bool-cases (any (λ q. q === r) conf.direct_domains)) [
        | inl old ↦ rw (proper, old) v
        | inr new ↦
            rw (proper, new)
              (record {
                distinct = Distinct-snoc conf.direct_domains r v.distinct new;
                nonblank = All-append _ conf.direct_domains (r ∷ []) v.nonblank (proper, tt);
                within =
                    let len = length-append conf.direct_domains (r ∷ []) in
                    let bigger = lt-grown conf.direct_domain_capacity room in
                    let kept = v.within in ground (arith, len, bigger, kept);
              })
      ]
    ]

-- Adding a rule adds the domains that the rule's text covers, and no other: the answer for any
-- domain is the old one, or that of the new rule, trimmed and normalised, unless that is blank.
pub domain_matches-add_domain :
    (conf : NspConf) (domain query : List ℕ)
    → nspconf_domain_matches (nspconf_add_direct_domain conf domain) query ≡ (
        nspconf_domain_matches conf query
        || (not (is_blank (rule_text domain))
            && rule_matches (normalize_domain (take servname_maxlen query)) (rule_text domain)))
unfolding nspconf_domain_matches nspconf_add_direct_domain add_rule
domain_matches-add_domain conf domain query =
    let r = rule_text domain in
    let p = rule_matches (normalize_domain (take servname_maxlen query)) in
    elim (Bool-cases (is_blank r)) [
      | inl blank ↦ rw blank (absorb _ false (λ h. cc))
      | inr proper ↦ elim (Bool-cases (any (λ q. q === r) conf.direct_domains)) [
        | inl old ↦ rw (proper, old) (absorb _ _ (any_mem r conf.direct_domains p old))
        | inr new ↦ rw (proper, new, any-append p conf.direct_domains (r ∷ [])) (ground arith)
      ]
    ]
