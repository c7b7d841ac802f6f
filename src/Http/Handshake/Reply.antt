-- ===== src/Http/Handshake/Reply.antt =====
-- Which bytes the handshake of src/http.c takes out of the socket.
use nsproxy.Common.{
  ℕ, zero, suc, bit_or, ◌-◌, ◌≤◌, ◌<◌, ◌≡◌, refl, sym, ap, ◌∙◌, ◌⊎◌, inl, inr, Bool, true, false,
  Option, none, some, List, [], ◌∷◌, ◌++◌, arith, leb, ◌==◌, if◌then◌else◌, ==_iff, ◌===◌, ===→eq,
  Bool-cases, Option-cases, ==_false, length, take, All, length-append, length-take, take_all,
}
use nsproxy.Skutils.{bytes, epollin, epollout, Ctl, evupd, skutils_evctl}
use nsproxy.Socks.Codec.{c_string}
use nsproxy.Http.Handshake.{
  forwarding, ProxyHttp, quiet, fail, is_ok, scan_status, http_reply, http_taken, reply_discard,
  http_handshake_input, crlf2_end, capacity,
}

abbrev starts : ℕ → List ℕ → Bool
starts c s = take 4 (c ∷ s) === (13 ∷ 10 ∷ 13 ∷ 10 ∷ [])

end_here : (c : ℕ) (s : List ℕ) → starts c s ≡ true → crlf2_end (c ∷ s) ≡ some 4
unfolding crlf2_end
end_here c s h = rw h refl

end_none : (c : ℕ) (s : List ℕ) → starts c s ≡ false → crlf2_end s ≡ none → crlf2_end (c ∷ s) ≡ none
unfolding crlf2_end
end_none c s h e = rw (h, e) refl

end_later :
    (c n : ℕ) (s : List ℕ)
    → starts c s ≡ false
    → crlf2_end s ≡ some n
    → crlf2_end (c ∷ s) ≡ some (suc n)
unfolding crlf2_end
end_later c n s h e = rw (h, e) refl

some_value : {m n : ℕ} → some m ≡ some n → m ≡ n
some_value h = cc

starts_size : (c : ℕ) (s : List ℕ) → starts c s ≡ true → 3 ≤ length s
starts_size c s h =
    let e = ap length (===→eq (take 4 (c ∷ s)) (13 ∷ 10 ∷ 13 ∷ 10 ∷ []) h) in
    omega (arith, length-take 4 (c ∷ s), e)

none-some : {n : ℕ} → none ≡ some n → ⊥
none-some k = cc

no_end : (e : ℕ) → crlf2_end [] ≡ some e → ⊥
unfolding crlf2_end
no_end e h = none-some h

-- The end of a match lies in the string.
end_bound : (s : List ℕ) (e : ℕ) → crlf2_end s ≡ some e → (4 ≤ e) × (e ≤ length s)
end_bound [] e h = absurd (no_end e h)
end_bound (c ∷ s) e h = elim (Bool-cases (starts c s)) [
  | inl t ↦
      let v = some_value (sym (end_here c s t) ∙ h) in
      (omega arith, omega (arith, starts_size c s t, v))
  | inr f ↦ elim (Option-cases (crlf2_end s)) [
    | inl g ↦ absurd (none-some (sym (end_none c s f g) ∙ h))
    | inr (n, g) ↦
        let (low, high) = end_bound s n g in
        let v = some_value (sym (end_later c n s f g) ∙ h) in (omega arith, omega arith)
  ]
]

take_prefix : (n : ℕ) (s p : List ℕ) → n ≤ length s → take n (s ++ p) ≡ take n s
take_prefix zero s p h = refl
take_prefix (suc n) [] p h = absurd (omega arith)
take_prefix (suc n) (c ∷ s) p h = ap (◌∷◌ c) (take_prefix n s p (omega arith))

-- A string without a match: none starts at its first byte, none is in the rest.
end_parts :
    (c : ℕ) (s : List ℕ) → crlf2_end (c ∷ s) ≡ none → (starts c s ≡ false) × (crlf2_end s ≡ none)
end_parts c s h = elim (Bool-cases (starts c s)) [
  | inl t ↦ absurd (none-some (sym h ∙ end_here c s t))
  | inr f ↦ elim (Option-cases (crlf2_end s)) [
    | inl g ↦ (f, g)
    | inr (n, g) ↦ absurd (none-some (sym h ∙ end_later c n s f g))
  ]
]

starts_short : (c : ℕ) (s p : List ℕ) → starts c s ≡ false → starts c (s ++ p) ≡ true → length s < 3
starts_short c s p f t = elim (Bool-cases (leb 3 (length s))) [
  | inl long ↦ absurd (
      true_false (
        sym t
        ∙ ap (λ l. (c ∷ l) === (13 ∷ 10 ∷ 13 ∷ 10 ∷ [])) (take_prefix 3 s p (ground arith))
        ∙ f))
  | inr short ↦ ground arith
]
  where
    true_false : true ≡ false → ⊥
    true_false h = cc

-- A match found with more bytes, but not without them, ends behind the first ones.
end_behind :
    (s p : List ℕ) (e : ℕ) → crlf2_end s ≡ none → crlf2_end (s ++ p) ≡ some e → length s < e
end_behind [] p e h f = let (low, high) = end_bound p e f in omega arith
end_behind (c ∷ s) p e h f =
    let (miss, later) = end_parts c s h in
    elim (Bool-cases (starts c (s ++ p))) [
      | inl t ↦
          let v = some_value (sym (end_here c (s ++ p) t) ∙ f) in
          omega (arith, starts_short c s p miss t, v)
      | inr g ↦ elim (Option-cases (crlf2_end (s ++ p))) [
        | inl k ↦ absurd (none-some (sym (end_none c (s ++ p) g k) ∙ f))
        | inr (n, k) ↦
            let v = some_value (sym (end_later c n (s ++ p) g k) ∙ f) in
            omega (arith, end_behind s p n later k, v)
      ]
    ]

c_string-All : (s : List ℕ) → All (λ c. 0 < c) s → c_string s ≡ s
unfolding c_string
c_string-All [] h = refl
c_string-All (c ∷ s) (p, h) = rw (==_false c 0 (omega arith)) (ap (◌∷◌ c) (c_string-All s h))

-- take of an append, when it reaches into the second part.
take_into : (s p : List ℕ) (n : ℕ) → length s ≤ n → s ++ take (n - length s) p ≡ take n (s ++ p)
take_into [] p n h = ap (λ m. take m p) (omega arith)
take_into (c ∷ s) p zero h = absurd (omega arith)
take_into (c ∷ s) p (suc n) h =
    ap (λ m. c ∷ (s ++ take m p)) (omega arith) ∙ ap (◌∷◌ c) (take_into s p n (omega arith))

-- The bytes that the second recv() is to take, of those peeked.
abbrev pub wanted : ProxyHttp → List ℕ → List ℕ
wanted self peeked =
    take
      (reply_discard (length self.hsbuff) (length peeked)
        (crlf2_end (c_string (self.hsbuff ++ peeked))))
      peeked

some_not_empty : (s : List ℕ) → 0 < length s → length s == 0 ≡ false
some_not_empty s h = ==_false (length s) 0 (ground arith)

-- Both calls of recv() in one: the state that is left to http_reply.
input_reply :
    (ctl : Ctl → ℕ) (peeked : List ℕ) (self : ProxyHttp) (e : Option ℕ)
    → 0 < length peeked
    → c_string (self.hsbuff ++ peeked) ≡ self.hsbuff ++ peeked
    → crlf2_end (self.hsbuff ++ peeked) ≡ e
    → reply_discard (length self.hsbuff) (length peeked) e ≤ length peeked
    → http_handshake_input ctl (bytes peeked) (bytes (wanted self peeked)) self
      ≡ http_reply ctl
          (self.hsbuff ++ peeked)
          e
          (record self { hsbuff = self.hsbuff ++ wanted self peeked })
unfolding http_handshake_input http_taken
input_reply ctl peeked self e h clean f small =
    rw (some_not_empty peeked h, clean, f)
      (rw
        ((==_iff (length (take (reply_discard (length self.hsbuff) (length peeked) e) peeked))
            (reply_discard (length self.hsbuff) (length peeked) e)).1
          (omega
            (arith, length-take (reply_discard (length self.hsbuff) (length peeked) e) peeked)))
        refl)

wanted_lem :
    (peeked : List ℕ) (self : ProxyHttp) (e : Option ℕ)
    → c_string (self.hsbuff ++ peeked) ≡ self.hsbuff ++ peeked
    → crlf2_end (self.hsbuff ++ peeked) ≡ e
    → wanted self peeked ≡ take (reply_discard (length self.hsbuff) (length peeked) e) peeked
wanted_lem peeked self e clean f = rw (clean, f) refl

-- While a reply arrives: the handshake takes the bytes peeked up to the end of the header and no
-- byte of the data behind it. At the end of the header it goes on to forward if sscanf() reads the
-- status 200 into its int, and else it fails and tells the user. A header without its end fails too
-- when it fills the buffer, and waits for more when it does not. There was no end in the buffer
-- before, no NUL is in either, at least one byte is peeked, and the socket gives the bytes it let peek.
pub handshake_input-Consumes :
    (ctl : Ctl → ℕ) (peeked : List ℕ) (self : ProxyHttp)
    → crlf2_end self.hsbuff ≡ none
    → All (λ c. 0 < c) (self.hsbuff ++ peeked)
    → 0 < length peeked
    → ((crlf2_end (self.hsbuff ++ peeked) ≡ none)
        × (wanted self peeked ≡ peeked)
        × (http_handshake_input ctl (bytes peeked) (bytes (wanted self peeked)) self ≡ (
            if length (self.hsbuff ++ peeked) == capacity - 1
            then fail (record self { hsbuff = self.hsbuff ++ peeked })
            else quiet (record self { hsbuff = self.hsbuff ++ peeked }))))
      ⊎ ((end : ℕ) × (crlf2_end (self.hsbuff ++ peeked) ≡ some end)
          × (self.hsbuff ++ wanted self peeked ≡ take end (self.hsbuff ++ peeked))
          × (length self.hsbuff < end)
          × (http_handshake_input ctl (bytes peeked) (bytes (wanted self peeked)) self ≡ (
              if is_ok (scan_status (self.hsbuff ++ peeked))
              then quiet (record self {
                hsbuff = [];
                phase = forwarding;
                events = (skutils_evctl ctl self.events (bit_or epollout epollin) evupd).events;
              })
              else fail (record self { hsbuff = take end (self.hsbuff ++ peeked) }))))
unfolding reply_discard http_reply
handshake_input-Consumes ctl peeked self unseen clean some_bytes =
    let whole = self.hsbuff ++ peeked in
    let string = c_string-All whole clean in
    elim (Option-cases (crlf2_end whole)) [
      | inl e ↦
          let all =
            wanted_lem peeked self none string e ∙ take_all (length peeked) peeked (omega arith) in
          inl (
            e,
            all,
            input_reply ctl peeked self none some_bytes string e (omega arith)
                ∙ ap (λ w. http_reply ctl whole none (record self { hsbuff = self.hsbuff ++ w }))
                    all,
          )
      | inr (end, e) ↦
          let (low, high) = end_bound whole end e in
          let behind = end_behind self.hsbuff peeked end unseen e in
          let kept =
            ap (λ w. self.hsbuff ++ w) (wanted_lem peeked self (some end) string e)
            ∙ take_into self.hsbuff peeked end (omega arith) in
          inr (
            end,
            e,
            kept,
            behind,
            input_reply ctl peeked self (some end) some_bytes string e
                  (omega (arith, length-append self.hsbuff peeked, high))
                ∙ ap (λ w. http_reply ctl whole (some end) (record self { hsbuff = w })) kept,
          )
    ]
