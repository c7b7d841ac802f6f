-- ===== src/Http/Handshake/Status.antt =====
-- The status line of a reply as sscanf() reads it in src/http.c.
use nsproxy.Common.{
  ℕ, ◌+◌, ◌*◌, ◌-◌, ◌≤◌, ap, some, ◌%◌, ◌^◌, ◌≡◌, refl, ◌↔◌, true, false, List, ◌∷◌, ◌++◌, arith,
  ltb, ◌==◌, ==_iff, lt→ltb, length, ===_refl, ==_false,
}
use nsproxy.Rules.Text.{is_space}
use nsproxy.Http.Handshake.{is_digit, http_1, signed, scan_int, scan_status, is_ok}

digit_bounds : (c : ℕ) → is_digit c ≡ true → (48 ≤ c) × (c ≤ 57)
digit_bounds c h = ground arith

blank_lem : is_space 32 ≡ true
unfolding is_space
blank_lem = refl

digit_space : (c : ℕ) → is_digit c ≡ true → is_space c ≡ false
unfolding is_space
digit_space c h = ground arith

scan_number :
    (d e f x : ℕ) (rest : List ℕ)
    → is_digit d ≡ true
    → is_digit e ≡ true
    → is_digit f ≡ true
    → is_digit x ≡ false
    → scan_int (d ∷ e ∷ f ∷ x ∷ rest)
      ≡ signed false (some ((d - 48) * 100 + (e - 48) * 10 + (f - 48)))
scan_number d e f x rest hd he hf hx =
    let minus : (d == 45) ≡ false = ==_false d 45 (λ z. omega (arith, z, digit_bounds d hd)) in
    let plus : (d == 43) ≡ false = ==_false d 43 (λ z. omega (arith, z, digit_bounds d hd)) in
    let value : ((0 * 10 + (d - 48)) * 10 + (e - 48)) * 10 + (f - 48)
        ≡ (d - 48) * 100 + (e - 48) * 10 + (f - 48) =
      omega arith in
    rw (minus, plus, hd, he, hf, hx) (ap (λ n. signed false (some n)) value)

scan_status_number :
    (c d e f x : ℕ) (rest : List ℕ)
    → is_digit d ≡ true
    → is_digit e ≡ true
    → is_digit f ≡ true
    → is_digit x ≡ false
    → scan_status (http_1 ++ (c ∷ 32 ∷ d ∷ e ∷ f ∷ x ∷ rest))
      ≡ signed false (some ((d - 48) * 100 + (e - 48) * 10 + (f - 48)))
unfolding scan_status
scan_status_number c d e f x rest hd he hf hx =
    let long : ltb 7 (length (http_1 ++ (c ∷ 32 ∷ d ∷ e ∷ f ∷ x ∷ rest))) ≡ true =
      lt→ltb 7 _ (omega arith) in
    let blank : is_space 32 ≡ true = blank_lem in
    rw (===_refl http_1, long, blank, digit_space d hd) (scan_number d e f x rest hd he hf hx)

-- After "HTTP/1.", a character and a space, a number of three digits that no digit follows is taken
-- for success exactly when it is 200.
pub scan_status_iff :
    (c d e f x : ℕ) (rest : List ℕ)
    → is_digit d ≡ true
    → is_digit e ≡ true
    → is_digit f ≡ true
    → is_digit x ≡ false
    → (is_ok (scan_status (http_1 ++ (c ∷ 32 ∷ d ∷ e ∷ f ∷ x ∷ rest))) ≡ true)
      ↔ ((d ≡ 50) × ((e ≡ 48) × (f ≡ 48)))
unfolding is_ok
scan_status_iff c d e f x rest hd he hf hx =
    let n = (d - 48) * 100 + (e - 48) * 10 + (f - 48) in
    let small : ltb n (2 ^ 63) ≡ true =
      lt→ltb n (2 ^ 63) (omega (arith, digit_bounds d hd, digit_bounds e he, digit_bounds f hf)) in
    let kept : n % 2 ^ 32 ≡ n =
      omega (arith, digit_bounds d hd, digit_bounds e he, digit_bounds f hf) in
    rw (scan_status_number c d e f x rest hd he hf hx, small, kept)
      (
        (λ h.
            let same = (==_iff n 200).0 h in
            let bd = digit_bounds d hd in
            let be = digit_bounds e he in
            let bf = digit_bounds f hf in
            (
              omega (arith, same, bd, be, bf),
              (omega (arith, same, bd, be, bf), omega (arith, same, bd, be, bf)),
            )),
        λ (p, (q, r)). (==_iff n 200).1 (omega (arith, p, q, r)),
      )
