-- ===== src/Dns/Response/Learn.antt =====
-- The whole path of a DNS answer through src/core.c: from the bytes of a reply to the routing of the
-- address in it.
use nsproxy.Common.{
  ℕ, ◌+◌, ◌*◌, ◌<◌, bit_or, ◌≡◌, refl, sym, ap, ◌∙◌, Bool, true, false, not, some, List, [], ◌∷◌,
  ◌++◌, append_assoc, arith, ◌==◌, ===_refl, ltb-false, ==_false, length, take, drop, replicate,
  any, All, length-append, drop-append,
}
use nsproxy.Rules.Conf.{NspConf, inet}
use nsproxy.Rules.Cidr.{nspconf_add_direct_cidr_raw, cidr_match_bytes}
use nsproxy.Rules.Target.{
  v4, block_matches, is_blacklist, is_direct_cidr_target, is_direct-add_cidr,
}
use nsproxy.Rules.Domains.{nspconf_domain_matches}
use nsproxy.Socks.Codec.{c_string}
use nsproxy.Dns.Name.{name, dns_skip_name}
use nsproxy.Dns.Name.RoundTrip.{
  wire, IsLabel, text_of, get_at, dns_read_name-wire, dns_read_name-pointer,
}
use nsproxy.Dns.Response.{
  dns_get_u16, dns_log_query, seen, question_loop, read_fixed, add_answer, record_step, answer_step,
  learnt, answer_loop, read_header, after_questions, dns_response_add_direct_cidrs,
}

-- A reply with one question, for the A records of a name, and one A record for it, whose owner is a
-- pointer to the question. The identifier, the time to live and the address are free.
abbrev header : ℕ → ℕ → List ℕ
header i j = i ∷ j ∷ 0x81 ∷ 0x80 ∷ 0 ∷ 1 ∷ 0 ∷ 1 ∷ 0 ∷ 0 ∷ 0 ∷ 0 ∷ []

abbrev answer : ℕ → ℕ → ℕ → ℕ → List ℕ → List ℕ
answer t u v w addr = 0 ∷ 1 ∷ 0 ∷ 1 ∷ t ∷ u ∷ v ∷ w ∷ 0 ∷ 4 ∷ addr

abbrev pub a_reply : ℕ → ℕ → List (List ℕ) → ℕ → ℕ → ℕ → ℕ → List ℕ → List ℕ
a_reply i j ls t u v w addr =
    header i j ++ (wire ls ++ (0 ∷ 1 ∷ 0 ∷ 1 ∷ 0xc0 ∷ 0x0c ∷ answer t u v w addr))

u16_at :
    (msg pre : List ℕ) (h l : ℕ) (rest : List ℕ) (p : ℕ)
    → msg ≡ pre ++ (h ∷ l ∷ rest)
    → p ≡ length pre
    → dns_get_u16 msg p ≡ some (bit_or (h * 256) l)
unfolding dns_get_u16
u16_at msg pre h l rest p e at_p =
    let first = get_at msg pre h (l ∷ rest) p e at_p in
    let second =
      get_at msg (pre ++ (h ∷ [])) l rest (p + 1) (e ∙ sym (append_assoc pre (h ∷ []) (l ∷ rest)))
        (omega (arith, at_p, length-append pre (h ∷ []))) in
    rw (first, second, dns_get_u16)

-- The fixed part of the record.
fixed_at :
    (msg pre : List ℕ) (t u v w : ℕ) (addr : List ℕ) (p : ℕ)
    → msg ≡ pre ++ (0 ∷ 1 ∷ 0 ∷ 1 ∷ t ∷ u ∷ v ∷ w ∷ 0 ∷ 4 ∷ addr)
    → p ≡ length pre
    → read_fixed msg p ≡ some (record { type = 1; class = 1; rdlen = 4 })
unfolding read_fixed
fixed_at msg pre t u v w addr p e h =
    let first = u16_at msg pre 0 1 (0 ∷ 1 ∷ t ∷ u ∷ v ∷ w ∷ 0 ∷ 4 ∷ addr) p e h in
    let class =
      later (0 ∷ 1 ∷ []) 0 1 (t ∷ u ∷ v ∷ w ∷ 0 ∷ 4 ∷ addr) (p + 2) e (omega (arith, h)) in
    let high = later (0 ∷ 1 ∷ 0 ∷ 1 ∷ []) t u (v ∷ w ∷ 0 ∷ 4 ∷ addr) (p + 4) e (omega (arith, h)) in
    let low = later (0 ∷ 1 ∷ 0 ∷ 1 ∷ t ∷ u ∷ []) v w (0 ∷ 4 ∷ addr) (p + 6) e (omega (arith, h)) in
    let len = later (0 ∷ 1 ∷ 0 ∷ 1 ∷ t ∷ u ∷ v ∷ w ∷ []) 0 4 addr (p + 8) e (omega (arith, h)) in
    rw (first, class, high, low, len, read_fixed)
  where
    later :
        (gap : List ℕ) (x y : ℕ) (rest : List ℕ) (q : ℕ)
        → msg ≡ pre ++ (gap ++ (x ∷ y ∷ rest))
        → q ≡ length pre + length gap
        → dns_get_u16 msg q ≡ some (bit_or (x * 256) y)
    later gap x y rest q f g =
        u16_at msg (pre ++ gap) x y rest q (f ∙ sym (append_assoc pre gap (x ∷ y ∷ rest)))
          (omega (arith, g, length-append pre gap))

module _ (conf : NspConf) (i j : ℕ) (ls : List (List ℕ)) (t u v w a b c d : ℕ)
    (labels : All IsLabel ls) (short : length (text_of ls) < 256) (few : length ls < 127)
    (matches : nspconf_domain_matches conf (c_string (text_of ls)) ≡ true) where
  abbrev msg : List ℕ
  msg = a_reply i j ls t u v w (a ∷ b ∷ c ∷ d ∷ [])

  abbrev front : List ℕ
  front = header i j ++ (wire ls ++ (0 ∷ 1 ∷ 0 ∷ 1 ∷ []))

  abbrev learned : NspConf
  learned = nspconf_add_direct_cidr_raw conf inet 32 ((a ∷ b ∷ c ∷ d ∷ []) ++ replicate 12 0)

  msg-front : msg ≡ front ++ (0xc0 ∷ 0x0c ∷ answer t u v w (a ∷ b ∷ c ∷ d ∷ []))
  msg-front = ap (◌++◌ (header i j)) (sym (append_assoc (wire ls) (0 ∷ 1 ∷ 0 ∷ 1 ∷ []) _))

  length-front : length front ≡ 12 + length (wire ls) + 4
  length-front =
      length-append (header i j) (wire ls ++ (0 ∷ 1 ∷ 0 ∷ 1 ∷ []))
      ∙ omega (arith, length-append (wire ls) (0 ∷ 1 ∷ 0 ∷ 1 ∷ []))

  length-msg : length msg ≡ length front + 16
  length-msg = ap length msg-front ∙ length-append front _

  question :
      question_loop conf msg 1 12 false []
      ≡ seen
          (12 + length (wire ls) + 4)
          true
          (dns_log_query conf (c_string (text_of ls)) 1 true ∷ [])
  unfolding question_loop
  question = rw (
    dns_read_name-wire ls (header i j)
        (0 ∷ 1 ∷ 0 ∷ 1 ∷ 0xc0 ∷ 0x0c ∷ answer t u v w (a ∷ b ∷ c ∷ d ∷ [])) 256 labels short
        (omega arith) (omega arith),
    question_loop,
    ltb-false (length msg) (12 + length (wire ls) + 4) (omega (arith, length-msg, length-front)),
    u16_at msg (header i j ++ wire ls) 0 1
        (0 ∷ 1 ∷ 0xc0 ∷ 0x0c ∷ answer t u v w (a ∷ b ∷ c ∷ d ∷ [])) (12 + length (wire ls))
        (sym (append_assoc (header i j) (wire ls) _))
        (omega (arith, length-append (header i j) (wire ls))),
    matches,
  )

  owner : dns_skip_name msg (length front) ≡ name (length front + 2) (text_of ls)
  unfolding dns_skip_name
  owner =
      dns_read_name-pointer ls msg (header i j)
        (0 ∷ 1 ∷ 0 ∷ 1 ∷ 0xc0 ∷ 0x0c ∷ answer t u v w (a ∷ b ∷ c ∷ d ∷ [])) front
        (answer t u v w (a ∷ b ∷ c ∷ d ∷ [])) 0xc0 0x0c 256 refl msg-front refl refl labels short
        (omega arith) few

  data_at : take 4 (drop (length front + 2 + 10) msg) ≡ a ∷ b ∷ c ∷ d ∷ []
  data_at =
      ap (λ n. take 4 (drop n msg)) ends
      ∙ ap (λ m. take 4 (drop (length (front ++ gap)) m)) whole
      ∙ ap (take 4) (drop-append (front ++ gap) (a ∷ b ∷ c ∷ d ∷ []))
    where
      gap : List ℕ
      gap = 0xc0 ∷ 0x0c ∷ 0 ∷ 1 ∷ 0 ∷ 1 ∷ t ∷ u ∷ v ∷ w ∷ 0 ∷ 4 ∷ []

      ends : length front + 2 + 10 ≡ length (front ++ gap)
      ends = omega (arith, length-append front gap)

      whole : msg ≡ (front ++ gap) ++ (a ∷ b ∷ c ∷ d ∷ [])
      whole = msg-front ∙ sym (append_assoc front gap (a ∷ b ∷ c ∷ d ∷ []))

  fixed : read_fixed msg (length front + 2) ≡ some (record { type = 1; class = 1; rdlen = 4 })
  fixed =
      fixed_at msg (front ++ (0xc0 ∷ 0x0c ∷ [])) t u v w (a ∷ b ∷ c ∷ d ∷ []) (length front + 2)
        (msg-front
          ∙ sym (append_assoc front (0xc0 ∷ 0x0c ∷ []) (answer t u v w (a ∷ b ∷ c ∷ d ∷ []))))
        (omega (arith, length-append front (0xc0 ∷ 0x0c ∷ [])))

  answered : answer_loop conf msg 1 (length front) ≡ learnt learned
  unfolding answer_loop answer_step record_step add_answer
  answered = rw (
    owner,
    answer_loop,
    ltb-false (length msg) (length front + 2 + 10) (omega (arith, length-msg)),
    fixed,
    ltb-false (length msg) (length front + 2 + 10 + 4) (omega (arith, length-msg)),
    data_at,
  )

  some_rule : (rs : List (List ℕ)) (p : List ℕ → Bool) → any p rs ≡ true → (length rs == 0) ≡ false
  some_rule [] p h = cc
  some_rule (r ∷ rs) p h = ==_false (length (r ∷ rs)) 0 (ground arith)

  pub learns : (dns_response_add_direct_cidrs conf msg).conf ≡ learned
  unfolding dns_response_add_direct_cidrs read_header dns_get_u16 nspconf_domain_matches
      after_questions
  learns = rw (
    some_rule conf.direct_domains _ matches,
    ltb-false (length msg) 12 (omega (arith, length-msg, length-front)),
    question,
    ← length-front,
    answered,
  )

  self_match :
      block_matches
        (v4 (a ∷ b ∷ c ∷ d ∷ []))
        (record { family = inet; prefixlen = 32; addr = (a ∷ b ∷ c ∷ d ∷ []) ++ replicate 12 0 })
      ≡ true
  unfolding block_matches cidr_match_bytes
  self_match = rw (===_refl (a ∷ b ∷ c ∷ d ∷ []))

  -- A reply to a query for the A records of a name that, as a C string, matches a domain rule, with
  -- one address: the address is then reached directly in whitelist mode, and through the proxy in
  -- blacklist mode. The name has fewer than 127 labels, each of 1 to 63 bytes, and its text has at most
  -- 255 bytes.
  pub dns_response-routes :
      is_direct_cidr_target (dns_response_add_direct_cidrs conf msg).conf (v4 (a ∷ b ∷ c ∷ d ∷ []))
      ≡ not (is_blacklist conf.direct_cidr_mode)
  dns_response-routes = rw learns (
      is_direct-add_cidr conf inet 32 ((a ∷ b ∷ c ∷ d ∷ []) ++ replicate 12 0)
        (v4 (a ∷ b ∷ c ∷ d ∷ []))
      ∙ rw self_match)
