-- ===== src/Dns/Response/Effect.antt =====
-- What dns_response_add_direct_cidrs() of src/core.c may change.
use nsproxy.Common.{
  ℕ, zero, suc, ◌+◌, bit_and, ◌≡◌, refl, ap, ◌∙◌, ◌⊎◌, inl, inr, true, false, ◌&&◌, ◌||◌, Option,
  none, some, List, [], ◌∷◌, ◌++◌, append-nil, append_assoc, ltb, ◌==◌, if◌then◌else◌, Bool-cases,
  if_cases, length, replicate, any, All, All-append,
}
use nsproxy.Rules.Conf.{NspConf, CidrBlock, Family, inet, inet6}
use nsproxy.Rules.Cidr.{nspconf_add_direct_cidr_raw, same_block}
use nsproxy.Dns.Name.{bad, overread, name, NameResult, dns_skip_name}
use nsproxy.Dns.Response.{
  Questions, quit, overrun, seen, question_loop, Fixed, read_fixed, add_answer, AnswerStep, halt,
  oob, more, copy_bytes, add_host, go_on, record_step, answer_step, Learnt, answer_loop, Header,
  read_header, after_questions, Response, respond, fault, learnt, dns_response_add_direct_cidrs,
}

-- A block of one address: /32 for IPv4, /128 for IPv6.
abbrev pub IsHost : CidrBlock → Type 0
IsHost c = ((c.family ≡ inet) × (c.prefixlen ≡ 32)) ⊎ ((c.family ≡ inet6) × (c.prefixlen ≡ 128))

-- The new configuration is the old one with host blocks behind the old blocks.
pub record Extends (c d : NspConf) : Type 0 where
  pub added : List CidrBlock
  pub capacity : ℕ
  pub same :
      d ≡ record c { direct_cidrs = c.direct_cidrs ++ added; direct_cidr_capacity = capacity }
  pub hosts : All IsHost added

Extends-refl : (c : NspConf) → Extends c c
Extends-refl c = record {
  added = [];
  capacity = c.direct_cidr_capacity;
  same = rw append-nil;
  hosts = tt;
}

Extends-trans : (c d e : NspConf) → Extends c d → Extends d e → Extends c e
Extends-trans c d e p q = record {
  added = p.added ++ q.added;
  capacity = q.capacity;
  same = p_q p.same q.same;
  hosts = All-append IsHost p.added q.added p.hosts q.hosts;
}
  where
    p_q :
        d ≡ record c { direct_cidrs = c.direct_cidrs ++ p.added; direct_cidr_capacity = p.capacity }
        → e
          ≡ record d { direct_cidrs = d.direct_cidrs ++ q.added; direct_cidr_capacity = q.capacity }
        → e ≡ record c {
          direct_cidrs = c.direct_cidrs ++ (p.added ++ q.added);
          direct_cidr_capacity = q.capacity;
        }
    p_q a b =
        b
        ∙ ap
            (λ (x : NspConf). record x {
              direct_cidrs = x.direct_cidrs ++ q.added;
              direct_cidr_capacity = q.capacity;
            })
            a
        ∙ ap (λ t. record c { direct_cidrs = t; direct_cidr_capacity = q.capacity })
            (append_assoc c.direct_cidrs p.added q.added)

add_raw-Extends :
    (c : NspConf) (f : Family) (n : ℕ) (bytes : List ℕ)
    → IsHost (record { family = f; prefixlen = n; addr = bytes })
    → Extends c (nspconf_add_direct_cidr_raw c f n bytes)
unfolding nspconf_add_direct_cidr_raw
add_raw-Extends c f n bytes h =
    let block : CidrBlock = record { family = f; prefixlen = n; addr = bytes } in
    elim (Bool-cases (any (λ b. same_block b block) c.direct_cidrs)) [
      | inl old ↦ rw (old, nspconf_add_direct_cidr_raw) (Extends-refl c)
      | inr new ↦
          rw (new, nspconf_add_direct_cidr_raw)
            (record { added = block ∷ []; capacity = _; same = refl; hosts = (h, tt) })
    ]

abbrev SomeExtends : NspConf → Option NspConf → Type 0
SomeExtends c none = Unit {0}
SomeExtends c (some d) = Extends c d

add_answer-Extends :
    (c : NspConf) (type class rdlen : ℕ) (msg : List ℕ) (p : ℕ)
    → SomeExtends c (add_answer c type class rdlen msg p)
unfolding add_answer
add_answer-Extends c type class rdlen msg p =
    if_cases (SomeExtends c) (class == 1 && type == 1 && rdlen == 4) _ _
      (λ _. host inet 32 (replicate 12 0) (copy_bytes msg p 4) (inl (refl, refl)))
      (λ _.
        if_cases (SomeExtends c) (class == 1 && type == 28 && rdlen == 16) _ _
          (λ _. host inet6 128 [] (copy_bytes msg p 16) (inr (refl, refl))) (λ _. Extends-refl c))
  where
    host :
        (f : Family) (n : ℕ) (fill : List ℕ) (o : Option (List ℕ))
        → ((f ≡ inet) × (n ≡ 32)) ⊎ ((f ≡ inet6) × (n ≡ 128))
        → SomeExtends c (add_host c f n fill o)
    host f n fill none h = tt
    host f n fill (some addr) h = add_raw-Extends c f n (addr ++ fill) h

abbrev StepExtends : NspConf → AnswerStep → Type 0
StepExtends c halt = Unit {0}
StepExtends c oob = Unit {0}
StepExtends c (more d o) = Extends c d

record_step-Extends :
    (c : NspConf) (msg : List ℕ) (o : ℕ) (f : Option Fixed) → StepExtends c (record_step c msg o f)
unfolding record_step
record_step-Extends c msg o none = tt
record_step-Extends c msg o (some f) =
    if_cases (StepExtends c) (ltb (length msg) (o + 10 + f.rdlen)) halt
      (go_on (o + 10 + f.rdlen) (add_answer c f.type f.class f.rdlen msg (o + 10))) (λ _. tt)
      (λ _. on _ (add_answer-Extends c f.type f.class f.rdlen msg (o + 10)))
  where
    on : (d : Option NspConf) → SomeExtends c d → StepExtends c (go_on (o + 10 + f.rdlen) d)
    on none h = tt
    on (some d) h = h

answer_step-Extends :
    (c : NspConf) (msg : List ℕ) (r : NameResult) → StepExtends c (answer_step c msg r)
unfolding answer_step
answer_step-Extends c msg bad = tt
answer_step-Extends c msg overread = tt
answer_step-Extends c msg (name o owner) =
    if_cases (StepExtends c) (ltb (length msg) (o + 10)) halt
      (record_step c msg o (read_fixed msg o)) (λ _. tt)
      (λ _. record_step-Extends c msg o (read_fixed msg o))

answer_loop-Extends :
    (n : ℕ) (c : NspConf) (msg : List ℕ) (offset : ℕ) → Extends c (answer_loop c msg n offset).conf
unfolding answer_loop
answer_loop-Extends zero c msg offset = Extends-refl c
answer_loop-Extends (suc n) c msg offset =
    go (answer_step c msg (dns_skip_name msg offset))
      (answer_step-Extends c msg (dns_skip_name msg offset)) (λ d o. answer_loop-Extends n d msg o)
  where
    go :
        (s : AnswerStep)
        → StepExtends c s
        → ((d : NspConf) (o : ℕ) → Extends d (answer_loop d msg n o).conf)
        → Extends c
            (elim s as (λ _. Learnt) [
              | halt ↦ learnt c
              | oob ↦ fault c
              | more d o ↦ answer_loop d msg n o
            ]).conf
    go halt h ih = Extends-refl c
    go oob h ih = Extends-refl c
    go (more d o) h ih = Extends-trans c d _ h (ih d o)

after_questions-Extends :
    (c : NspConf) (msg : List ℕ) (n : ℕ) (q : Questions)
    → Extends c (after_questions c msg n q).conf
unfolding after_questions
after_questions-Extends c msg n (quit log) = Extends-refl c
after_questions-Extends c msg n (overrun log) = Extends-refl c
after_questions-Extends c msg n (seen offset true log) = answer_loop-Extends n c msg offset
after_questions-Extends c msg n (seen offset false log) = Extends-refl c

-- Whatever a server answers, the rules of the user stay: only blocks of single addresses are added,
-- behind the blocks that are there, and besides these and the capacity nothing changes.
pub dns_response-Extends :
    (c : NspConf) (msg : List ℕ) → Extends c (dns_response_add_direct_cidrs c msg).conf
unfolding dns_response_add_direct_cidrs
dns_response-Extends c msg =
    elim (Bool-cases (length c.direct_domains == 0 || ltb (length msg) 12)) [
      | inl early ↦ rw early (Extends-refl c)
      | inr late ↦ rw late (by_header (read_header msg))
    ]
  where
    by_header :
        (o : Option Header)
        → Extends c
            (elim o as (λ _. Response) [
              | none ↦ record { result = fault c; log = [] }
              | some h ↦
                  if bit_and h.flags 0x8000 == 0
                  then record { result = learnt c; log = [] }
                  else (let q = question_loop c msg h.qdcount 12 false [] in
                      respond c q (after_questions c msg h.ancount q))
            ]).conf
    by_header none = Extends-refl c
    by_header (some h) = elim (Bool-cases (bit_and h.flags 0x8000 == 0)) [
      | inl query ↦ rw query (Extends-refl c)
      | inr answer ↦ rw answer (after_questions-Extends c msg h.ancount _)
    ]
