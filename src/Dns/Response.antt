-- ===== src/Dns/Response.antt =====
-- src/core.c: nsproxy_log_dns_queries() and dns_response_add_direct_cidrs(), with the query log that
-- they write. The numbers of a message are in network order.
pub mod Safety
pub mod Effect
pub mod Learn
use nsproxy.Common.{
  ℕ, zero, suc, ◌+◌, ◌-◌, ◌*◌, ◌/◌, ◌%◌, ◌^◌, ◌≤◌, ◌<◌, bit_and, bit_or, ◌≡◌, refl, sym, ap, ◌∙◌,
  ◌≢◌, ◌↔◌, ◌⊎◌, inl, inr, Bool, true, false, not, ◌&&◌, ◌||◌, Option, none, some, List, [], ◌∷◌,
  ◌++◌, map, reverse, append-nil, append_assoc, arith, ltb, leb, ◌==◌, if◌then◌else◌, ltb→lt,
  lt→ltb, leb→le, ==_iff, ◌===◌, ===→eq, ===_refl, Bool-cases, Option-cases, ||_cases, ||_right,
  &&_parts, absorb, if_cases, leb-false, ltb-false, ==_false, length, get_elem?, get_or, take, drop,
  replicate, any, All, length-append, length-reverse, length-replicate, length-take, length-drop,
  take-append-drop, take-append, drop-append, take_all, get_elem?-append, get_elem?_below,
  any-append, All-append, any_mem, Some, any_iff, tail_eq,
}
use nsproxy.Rules.Conf.{
  NspConf, Family, inet, inet6, CidrMode, DnsType, off, tcp, udp, direct_domain_count, CidrBlock,
}
use nsproxy.Rules.Cidr.{nspconf_add_direct_cidr_raw}
use nsproxy.Rules.Target.{is_blacklist}
use nsproxy.Rules.Domains.{nspconf_domain_matches}
use nsproxy.Socks.Codec.{c_string}
use nsproxy.Dns.Name.{NameResult, bad, overread, name, dns_read_name, dns_skip_name}

-- `none` is a read behind the message.
unfoldable pub dns_get_u16 : List ℕ → ℕ → Option ℕ
dns_get_u16 msg p = elim (get_elem? msg p) [
  | none ↦ none
  | some high ↦ elim (get_elem? msg (p + 1)) [
    | none ↦ none
    | some low ↦ some (bit_or (high * 256) low)
  ]
]

pub data Route : Type 0 where
  proxy direct : Route

-- A line of the log of queries.
pub record QueryLog : Type 0 where
  pub domain : List ℕ
  pub qtype : ℕ
  pub matched : Bool
  pub route : Route

same_bool : Bool → Bool → Bool
same_bool true b = b
same_bool false b = not b

unfoldable pub dns_log_query : NspConf → List ℕ → ℕ → Bool → QueryLog
unfolding same_bool
dns_log_query conf domain qtype matched = record {
  domain = domain;
  qtype = qtype;
  matched = matched;
  route = if same_bool matched (is_blacklist conf.direct_cidr_mode) then proxy else direct;
}

-- What a pass over the questions comes to: it returns early, it reads behind the message (which the
-- source does not test for), or it ends at an offset, with `matched`. Each keeps the log.
pub data Questions : Type 0 where
  quit overrun : List QueryLog → Questions
  seen : ℕ → Bool → List QueryLog → Questions

-- The loop over the questions, which is the same in both functions; `n` rounds are left. A name is
-- passed on as a C string, which a NUL in a label ends.
pub question_loop : NspConf → List ℕ → ℕ → ℕ → Bool → List QueryLog → Questions
unfolding dns_log_query
question_loop conf msg zero offset matched log = seen offset matched log
question_loop conf msg (suc n) offset matched log = elim (dns_read_name msg offset 256) [
  | bad ↦ quit log
  | overread ↦ overrun log
  | name offset' qname ↦ elim (ltb (length msg) (offset' + 4)) [
    | true ↦ quit log
    | false ↦ elim (dns_get_u16 msg offset') [
      | none ↦ overrun log
      | some qtype ↦
          let domain = c_string qname in
          let qmatched = nspconf_domain_matches conf domain in
          question_loop conf msg n (offset' + 4) (qmatched || matched)
            (log ++ (dns_log_query conf domain qtype qmatched ∷ []))
    ]
  ]
]

abbrev pub log_of : Questions → List QueryLog
log_of (quit log) = log
log_of (overrun log) = log
log_of (seen o m log) = log

-- `overran` is set by a read behind the message.
pub record Logged : Type 0 where
  pub log : List QueryLog
  pub overran : Bool

abbrev pub is_overrun : Questions → Bool
is_overrun (quit log) = false
is_overrun (overrun log) = true
is_overrun (seen o m log) = false

unfoldable pub nsproxy_log_dns_queries : NspConf → List ℕ → Logged
unfolding question_loop dns_get_u16
nsproxy_log_dns_queries conf msg =
    if ltb (length msg) 12
    then record { log = []; overran = false }
    else (elim (dns_get_u16 msg 4) [
      | none ↦ record { log = []; overran = true }
      | some qdcount ↦
          let q = question_loop conf msg qdcount 12 false [] in
          record { log = log_of q; overran = is_overrun q }
    ])

-- The configuration after the answers, and whether a read went behind the message.
pub record Learnt : Type 0 where
  pub conf : NspConf
  pub overran : Bool

abbrev pub learnt : NspConf → Learnt
learnt conf = record { conf = conf; overran = false }

abbrev pub fault : NspConf → Learnt
fault conf = record { conf = conf; overran = true }

-- memcpy() of `n` bytes of the message; `none` is a read behind it.
abbrev pub copy_bytes : List ℕ → ℕ → ℕ → Option (List ℕ)
copy_bytes msg p n = if ltb (length msg) (p + n) then none else some (take n (drop p msg))

abbrev pub add_host : NspConf → Family → ℕ → List ℕ → Option (List ℕ) → Option NspConf
add_host conf family prefixlen fill none = none
add_host conf family prefixlen fill (some addr) =
    some (nspconf_add_direct_cidr_raw conf family prefixlen (addr ++ fill))

-- An A or AAAA record of class IN becomes a host block; its data are at `p`. Any other is not read.
pub add_answer : NspConf → ℕ → ℕ → ℕ → List ℕ → ℕ → Option NspConf
add_answer conf type class rdlen msg p =
    if class == 1 && type == 1 && rdlen == 4
    then add_host conf inet 32 (replicate 12 0) (copy_bytes msg p 4)
    else (if class == 1 && type == 28 && rdlen == 16
        then add_host conf inet6 128 [] (copy_bytes msg p 16)
        else some conf)

-- The fixed part of a record at an offset: type, class and rdlength. The time to live is read too,
-- and not used.
pub record Fixed : Type 0 where
  pub type : ℕ
  pub class : ℕ
  pub rdlen : ℕ

pub read_fixed : List ℕ → ℕ → Option Fixed
unfolding dns_get_u16
read_fixed msg offset = elim (dns_get_u16 msg offset) [
  | none ↦ none
  | some type ↦ elim (dns_get_u16 msg (offset + 2)) [
    | none ↦ none
    | some class ↦ elim (dns_get_u16 msg (offset + 4)) [
      | none ↦ none
      | some ttl_high ↦ elim (dns_get_u16 msg (offset + 6)) [
        | none ↦ none
        | some ttl_low ↦ elim (dns_get_u16 msg (offset + 8)) [
          | none ↦ none
          | some rdlen ↦ some (record { type = type; class = class; rdlen = rdlen })
        ]
      ]
    ]
  ]
]

-- One round over the answers: it returns, it reads behind the message, or it goes on.
pub data AnswerStep : Type 0 where
  halt oob : AnswerStep
  more : NspConf → ℕ → AnswerStep

abbrev pub go_on : ℕ → Option NspConf → AnswerStep
go_on offset none = oob
go_on offset (some conf) = more conf offset

pub record_step : NspConf → List ℕ → ℕ → Option Fixed → AnswerStep
unfolding add_answer
record_step conf msg offset none = oob
record_step conf msg offset (some f) =
    if ltb (length msg) (offset + 10 + f.rdlen)
    then halt
    else go_on (offset + 10 + f.rdlen) (add_answer conf f.type f.class f.rdlen msg (offset + 10))

pub answer_step : NspConf → List ℕ → NameResult → AnswerStep
unfolding read_fixed record_step
answer_step conf msg bad = halt
answer_step conf msg overread = oob
answer_step conf msg (name offset owner) =
    if ltb (length msg) (offset + 10)
    then halt
    else record_step conf msg offset (read_fixed msg offset)

-- The loop over the answers; `n` rounds are left.
pub answer_loop : NspConf → List ℕ → ℕ → ℕ → Learnt
unfolding answer_step
answer_loop conf msg zero offset = learnt conf
answer_loop conf msg (suc n) offset = elim (answer_step conf msg (dns_skip_name msg offset)) [
  | halt ↦ learnt conf
  | oob ↦ fault conf
  | more conf' offset' ↦ answer_loop conf' msg n offset'
]

-- The three numbers of the header that are read.
pub record Header : Type 0 where
  pub flags : ℕ
  pub qdcount : ℕ
  pub ancount : ℕ

pub read_header : List ℕ → Option Header
unfolding dns_get_u16
read_header msg = elim (dns_get_u16 msg 2) [
  | none ↦ none
  | some flags ↦ elim (dns_get_u16 msg 4) [
    | none ↦ none
    | some qdcount ↦ elim (dns_get_u16 msg 6) [
      | none ↦ none
      | some ancount ↦ some (record { flags = flags; qdcount = qdcount; ancount = ancount })
    ]
  ]
]

pub after_questions : NspConf → List ℕ → ℕ → Questions → Learnt
unfolding answer_loop
after_questions conf msg ancount (quit log) = learnt conf
after_questions conf msg ancount (overrun log) = fault conf
after_questions conf msg ancount (seen offset matched log) =
    if matched then answer_loop conf msg ancount offset else learnt conf

pub record Response : Type 0 where
  pub result : Learnt
  pub open result use *
  pub log : List QueryLog

abbrev is_tcp : DnsType → Bool
is_tcp off = false
is_tcp tcp = true
is_tcp udp = false

-- Queries are logged here too, unless DNS is redirected to TCP.
abbrev pub respond : NspConf → Questions → Learnt → Response
respond conf q l = record { result = l; log = if is_tcp conf.dnstype then [] else log_of q }

unfoldable pub dns_response_add_direct_cidrs : NspConf → List ℕ → Response
unfolding read_header question_loop after_questions
dns_response_add_direct_cidrs conf msg =
    if direct_domain_count conf == 0 || ltb (length msg) 12
    then record { result = learnt conf; log = [] }
    else (elim (read_header msg) [
      | none ↦ record { result = fault conf; log = [] }
      | some h ↦
          if bit_and h.flags 0x8000 == 0
          then record { result = learnt conf; log = [] }
          else (let q = question_loop conf msg h.qdcount 12 false [] in
              respond conf q (after_questions conf msg h.ancount q))
    ])
