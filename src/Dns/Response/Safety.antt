-- ===== src/Dns/Response/Safety.antt =====
-- The two message readers of src/core.c read no byte behind the message.
use nsproxy.Common.{
  ℕ, zero, suc, ◌+◌, ◌*◌, ◌≤◌, ◌<◌, bit_and, bit_or, ◌≡◌, refl, inl, inr, Bool, true, false, ◌||◌,
  ◌&&◌, Option, replicate, ltb-false, some, List, [], arith, ltb, ◌==◌, Bool-cases, if_cases,
  le_of_ltb, length, get_elem?_below,
}
use nsproxy.Rules.Conf.{NspConf, Family, inet, inet6}
use nsproxy.Socks.Codec.{c_string}
use nsproxy.Dns.Name.{dns_skip_name}
use nsproxy.Dns.Name.Bounds.{read_name_cases}
use nsproxy.Rules.Domains.{nspconf_domain_matches}
use nsproxy.Dns.Response.{
  dns_get_u16, QueryLog, Questions, quit, overrun, seen, question_loop, is_overrun,
  nsproxy_log_dns_queries, Fixed, read_fixed, AnswerStep, halt, oob, more, copy_bytes, add_host,
  add_answer, record_step, answer_step, Learnt, learnt, fault, answer_loop, Header, read_header,
  after_questions, dns_response_add_direct_cidrs,
}

pub get_u16_some :
    (msg : List ℕ) (p : ℕ) → p + 1 < length msg → (v : ℕ) × (dns_get_u16 msg p ≡ some v)
unfolding dns_get_u16
get_u16_some msg p h =
    let (high, e) = get_elem?_below msg p (omega arith) in
    let (low, f) = get_elem?_below msg (p + 1) h in
    (bit_or (high * 256) low, rw (e, f, dns_get_u16))

question_loop-safe :
    (conf : NspConf) (msg : List ℕ) (n offset : ℕ) (matched : Bool) (log : List QueryLog)
    → is_overrun (question_loop conf msg n offset matched log) ≡ false
unfolding question_loop
question_loop-safe conf msg zero offset matched log = refl
question_loop-safe conf msg (suc n) offset matched log = elim (read_name_cases msg offset 256) [
  | inl e ↦ rw (e, question_loop) refl
  | inr (o, text, e, ahead, inside) ↦ elim (Bool-cases (ltb (length msg) (o + 4))) [
    | inl long ↦ rw (e, question_loop, long) refl
    | inr short ↦
        let (v, f) = get_u16_some msg o (omega (arith, le_of_ltb (length msg) (o + 4) short)) in
        rw (e, question_loop, short, f)
          (question_loop-safe conf msg n (o + 4)
            (nspconf_domain_matches conf (c_string text) || matched) _)
  ]
]

-- Logging the queries of a datagram reads only the datagram.
pub log_dns_queries-safe :
    (conf : NspConf) (msg : List ℕ) → (nsproxy_log_dns_queries conf msg).overran ≡ false
unfolding nsproxy_log_dns_queries
log_dns_queries-safe conf msg = elim (Bool-cases (ltb (length msg) 12)) [
  | inl short ↦ rw short
  | inr long ↦
      let (v, e) = get_u16_some msg 4 (omega (arith, le_of_ltb (length msg) 12 long)) in
      rw (long, e) (question_loop-safe conf msg v 12 false [])
]

read_fixed-some :
    (msg : List ℕ) (p : ℕ) → p + 10 ≤ length msg → (f : Fixed) × (read_fixed msg p ≡ some f)
unfolding read_fixed
read_fixed-some msg p h =
    let (type, a) = get_u16_some msg p (omega arith) in
    let (class, b) = get_u16_some msg (p + 2) (omega arith) in
    let (t, c) = get_u16_some msg (p + 4) (omega arith) in
    let (u, d) = get_u16_some msg (p + 6) (omega arith) in
    let (rdlen, e) = get_u16_some msg (p + 8) (omega arith) in
    (record { type = type; class = class; rdlen = rdlen }, rw (a, b, c, d, e, read_fixed))

-- The data of a record that ends inside the message are read inside it.
add_answer-some :
    (conf : NspConf) (type class rdlen : ℕ) (msg : List ℕ) (p : ℕ)
    → p + rdlen ≤ length msg
    → (c : NspConf) × (add_answer conf type class rdlen msg p ≡ some c)
unfolding add_answer
add_answer-some conf type class rdlen msg p h =
    if_cases IsThere (class == 1 && type == 1 && rdlen == 4) _ _
      (λ e. host inet 32 (replicate 12 0) 4 (ground (arith, e, h)))
      (λ _.
        if_cases IsThere (class == 1 && type == 28 && rdlen == 16) _ _
          (λ e. host inet6 128 [] 16 (ground (arith, e, h))) (λ _. (conf, refl)))
  where
    IsThere : Option NspConf → Type 0
    IsThere o = (c : NspConf) × (o ≡ some c)

    host :
        (f : Family) (n : ℕ) (fill : List ℕ) (size : ℕ)
        → p + size ≤ length msg
        → IsThere (add_host conf f n fill (copy_bytes msg p size))
    host f n fill size k = rw (ltb-false (length msg) (p + size) k) (_, refl)

abbrev IsSafe : AnswerStep → Type 0
IsSafe oob = ⊥
IsSafe _ = Unit {0}

answer_step-IsSafe :
    (conf : NspConf) (msg : List ℕ) (offset : ℕ)
    → IsSafe (answer_step conf msg (dns_skip_name msg offset))
unfolding answer_step dns_skip_name record_step
answer_step-IsSafe conf msg offset = elim (read_name_cases msg offset 256) [
  | inl e ↦ rw e tt
  | inr (o, text, e, ahead, inside) ↦ rw e (
      if_cases IsSafe (ltb (length msg) (o + 10)) halt _ (λ _. tt)
        (λ short.
          let (f, g) = read_fixed-some msg o (le_of_ltb (length msg) (o + 10) short) in
          rw g (
            if_cases IsSafe (ltb (length msg) (o + 10 + f.rdlen)) halt _ (λ _. tt)
              (λ inside.
                let (c, read) =
                  add_answer-some conf f.type f.class f.rdlen msg (o + 10)
                    (le_of_ltb (length msg) (o + 10 + f.rdlen) inside) in
                rw read tt))))
]

answer_loop-safe :
    (n : ℕ) (conf : NspConf) (msg : List ℕ) (offset : ℕ)
    → (answer_loop conf msg n offset).overran ≡ false
unfolding answer_loop
answer_loop-safe zero conf msg offset = refl
answer_loop-safe (suc n) conf msg offset =
    go (answer_step conf msg (dns_skip_name msg offset)) (answer_step-IsSafe conf msg offset)
      (λ c o. answer_loop-safe n c msg o)
  where
    go :
        (s : AnswerStep)
        → IsSafe s
        → ((c : NspConf) (o : ℕ) → (answer_loop c msg n o).overran ≡ false)
        → (elim s as (λ _. Learnt) [
          | halt ↦ learnt conf
          | oob ↦ fault conf
          | more c o ↦ answer_loop c msg n o
        ]).overran
          ≡ false
    go halt h ih = refl
    go oob h ih = absurd h
    go (more c o) h ih = ih c o

read_header-some : (msg : List ℕ) → 12 ≤ length msg → (h : Header) × (read_header msg ≡ some h)
unfolding read_header
read_header-some msg h =
    let (flags, a) = get_u16_some msg 2 (omega arith) in
    let (qdcount, b) = get_u16_some msg 4 (omega arith) in
    let (ancount, c) = get_u16_some msg 6 (omega arith) in
    (record { flags = flags; qdcount = qdcount; ancount = ancount }, rw (a, b, c, read_header))

after_questions-safe :
    (conf : NspConf) (msg : List ℕ) (n : ℕ) (q : Questions)
    → is_overrun q ≡ false
    → (after_questions conf msg n q).overran ≡ false
unfolding after_questions
after_questions-safe conf msg n (quit log) h = refl
after_questions-safe conf msg n (overrun log) h = cc
after_questions-safe conf msg n (seen offset true log) h = answer_loop-safe n conf msg offset
after_questions-safe conf msg n (seen offset false log) h = refl

-- Whatever bytes a server answers with, learning from them reads no byte behind the answer.
pub dns_response-safe :
    (conf : NspConf) (msg : List ℕ) → (dns_response_add_direct_cidrs conf msg).overran ≡ false
unfolding dns_response_add_direct_cidrs
dns_response-safe conf msg =
    elim (Bool-cases (length conf.direct_domains == 0 || ltb (length msg) 12)) [
      | inl early ↦ rw early
      | inr late ↦
          let (h, e) = read_header-some msg (ground arith) in
          elim (Bool-cases (bit_and h.flags 0x8000 == 0)) [
            | inl query ↦ rw (late, e, query)
            | inr answer ↦
                rw (late, e, answer)
                  (after_questions-safe conf msg h.ancount _
                    (question_loop-safe conf msg h.qdcount 12 false []))
          ]
    ]
