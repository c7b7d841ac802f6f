-- ===== src/Options/Cidr/Laws.antt =====
-- What the CIDR items of src/main.c mean: one item, and a list of them.
use nsproxy.Common.{
  ℕ, ◌%◌, ◌^◌, ◌≤◌, ◌<◌, ◌≡◌, refl, ap, ◌∙◌, ◌≢◌, Bool, true, false, ◌||◌, List, [], ◌∷◌, ◌++◌,
  arith, ltb, leb, ◌==◌, if◌then◌else◌, lt→ltb, leb→le, ==_iff, &&_parts, ==_false, All,
}
use mathlib.Core.Path.{fun_ext}
use nsproxy.Rules.Conf.{NspConf, Family, inet, inet6}
use nsproxy.Rules.Text.{trim_ascii_space, skip_space}
use nsproxy.Socks.Codec.{Inet}
use nsproxy.Options.{Result, exits, bad_prefix, is_nil, has_byte, pos, strtol}
use nsproxy.Options.Text.{IsDigit, decimal, strtol-decimal, strchr-append, ||_false}
use nsproxy.Options.Cidr.{
  max_prefix, pton, item_family, add_address, add_parts, add_direct_cidr, onto_first, fields,
  nonempty, strtok, add_items, parse_direct_cidrs,
}

digits_no_slash : (s : List ℕ) → All IsDigit s → has_byte b'/' s ≡ false
digits_no_slash [] h = refl
digits_no_slash (c ∷ s) (d, h) =
    let low : 48 ≤ c = leb→le _ _ (&&_parts (leb b'0' c) (leb c b'9') d).0 in
    let other : (c == b'/') ≡ false = ==_false c b'/' (λ e. omega (arith, low, e)) in
    rw (other, digits_no_slash s h) refl

parts_lem :
    (libc : Inet) (conf : NspConf) (item prefix : List ℕ) (n : ℕ)
    → is_nil item ≡ false
    → is_nil prefix ≡ false
    → has_byte b'/' prefix ≡ false
    → strtol prefix ≡ (pos n, [])
    → let max = max_prefix (item_family item) in
      add_parts libc conf item prefix ≡ (
        if leb (2 ^ 31) (n % 2 ^ 32) || ltb max (n % 2 ^ 32)
        then exits bad_prefix
        else add_address conf (item_family item) (n % 2 ^ 32) (pton libc (item_family item) item))
unfolding add_parts
parts_lem libc conf item prefix n e f g h = rw (h, e, f, g) refl

-- An address and a decimal prefix length within a long: the address is read in the family that its
-- colons show, and the prefix length counts modulo 2 ^ 32. A remainder above the family's 32 or 128
-- is refused; else the block is added, or the address is refused by inet_pton().
pub add_direct_cidr-decimal :
    (libc : Inet) (conf : NspConf) (item : List ℕ) (c : ℕ) (s : List ℕ)
    → item ≢ []
    → has_byte b'/' item ≡ false
    → All IsDigit (c ∷ s)
    → decimal 0 (c ∷ s) < 2 ^ 63
    → let prefixlen = decimal 0 (c ∷ s) % 2 ^ 32 in
      add_direct_cidr libc conf (item ++ (b'/' ∷ c ∷ s)) ≡ (
        if ltb (max_prefix (item_family item)) prefixlen
        then exits bad_prefix
        else add_address conf (item_family item) prefixlen (pton libc (item_family item) item))
unfolding add_direct_cidr
add_direct_cidr-decimal libc conf item c s proper plain digits small =
    let n = decimal 0 (c ∷ s) % 2 ^ 32 in
    rw (add_direct_cidr, strchr-append b'/' item (c ∷ s) plain)
      (parts_lem libc conf item (c ∷ s) (decimal 0 (c ∷ s)) (nonnil item proper) refl
          (digits_no_slash (c ∷ s) digits) (strtol-decimal c s digits small)
        ∙ either _ _ (leb (2 ^ 31) n) (ltb (max_prefix (item_family item)) n)
            (λ h. lt→ltb _ n (omega (arith, leb→le (2 ^ 31) n h, at_most (item_family item)))))
  where
    nonnil : (t : List ℕ) → t ≢ [] → is_nil t ≡ false
    nonnil [] h = absurd (h refl)
    nonnil (x ∷ t) h = refl

    at_most : (f : Family) → max_prefix f ≤ 128
    at_most inet = omega arith
    at_most inet6 = omega arith

    either :
        {A : Type 0} (x y : A) (a b : Bool)
        → (a ≡ true → b ≡ true)
        → (if a || b then x else y) ≡ (if b then x else y)
    either x y true true h = refl
    either x y true false h = absurd (cc (h refl))
    either x y false b h = refl

abbrev pub join : ℕ → List (List ℕ) → List ℕ
join c [] = []
join c (s ∷ []) = s
join c (s ∷ t ∷ ss) = s ++ (c ∷ join c (t ∷ ss))

fields-byte :
    (c b : ℕ) (s : List ℕ) → (b == c) ≡ false → fields c (b ∷ s) ≡ onto_first b (fields c s)
fields-byte c b s e = rw e refl

fields-plain : (c : ℕ) (s : List ℕ) → has_byte c s ≡ false → fields c s ≡ s ∷ []
fields-plain c [] h = refl
fields-plain c (b ∷ s) h =
    let p = ||_false (b == c) (has_byte c s) h in
    fields-byte c b s p.0 ∙ ap (onto_first b) (fields-plain c s p.1)

fields-append :
    (c : ℕ) (s t : List ℕ) → has_byte c s ≡ false → fields c (s ++ (c ∷ t)) ≡ s ∷ fields c t
fields-append c [] t h = rw ((==_iff c c).1 refl) refl
fields-append c (b ∷ s) t h =
    let p = ||_false (b == c) (has_byte c s) h in
    fields-byte c b (s ++ (c ∷ t)) p.0 ∙ ap (onto_first b) (fields-append c s t p.1)

fields-join :
    (c : ℕ) (s : List ℕ) (ss : List (List ℕ))
    → All (λ s. has_byte c s ≡ false) (s ∷ ss)
    → fields c (join c (s ∷ ss)) ≡ s ∷ ss
fields-join c s [] (h, _) = fields-plain c s h
fields-join c s (t ∷ ss) (h, hs) =
    fields-append c s (join c (t ∷ ss)) h ∙ ap (◌∷◌ s) (fields-join c t ss hs)

-- An empty item adds nothing, whether strtok_r() gives it or not.
add_items-nonempty :
    (add : NspConf → List ℕ → Result NspConf) (ss : List (List ℕ)) (conf : NspConf)
    → add_items add (nonempty ss) conf ≡ add_items add ss conf
unfolding add_items trim_ascii_space skip_space
add_items-nonempty add [] conf = refl
add_items-nonempty add ([] ∷ ss) conf = add_items-nonempty add ss conf
add_items-nonempty add ((b ∷ s) ∷ ss) conf = rw (fun_ext (λ c. add_items-nonempty add ss c)) refl

-- Items that are joined by commas are added one after the other, each without the spaces around it,
-- up to the first that ends the program; a blank one adds nothing.
pub parse_direct_cidrs-join :
    (libc : Inet) (conf : NspConf) (s : List ℕ) (ss : List (List ℕ))
    → All (λ s. has_byte b',' s ≡ false) (s ∷ ss)
    → parse_direct_cidrs libc conf (join b',' (s ∷ ss))
      ≡ add_items (add_direct_cidr libc) (s ∷ ss) conf
unfolding parse_direct_cidrs strtok
parse_direct_cidrs-join libc conf s ss h =
    ap (λ (f : List (List ℕ)). add_items (add_direct_cidr libc) (nonempty f) conf)
      (fields-join b',' s ss h)
    ∙ add_items-nonempty (add_direct_cidr libc) (s ∷ ss) conf
