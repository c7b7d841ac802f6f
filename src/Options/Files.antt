-- ===== src/Options/Files.antt =====
-- Rule files: load_direct_cidrs_file() and load_direct_domains_file() of src/main.c, which differ only in
-- what they do with an item. The bytes of a file, and whether it opens and reads to its end, are
-- arguments.
pub mod Lines
pub mod Items
pub mod Laws
pub mod Long
use nsproxy.Common.{
  ℕ, zero, suc, ◌+◌, ◌-◌, ◌*◌, ◌/◌, ◌%◌, ◌^◌, ◌≤◌, ◌<◌, bit_and, bit_or, ◌≡◌, refl, sym, ap, ◌∙◌,
  ◌≢◌, ◌↔◌, ◌⊎◌, inl, inr, Bool, true, false, not, ◌&&◌, ◌||◌, Option, none, some, List, [], ◌∷◌,
  ◌++◌, map, reverse, append-nil, append_assoc, arith, ltb, leb, ◌==◌, if◌then◌else◌, ltb→lt,
  lt→ltb, leb→le, ==_iff, ◌===◌, ===→eq, ===_refl, Bool-cases, Option-cases, ||_cases, ||_right,
  &&_parts, absorb, if_cases, leb-false, ltb-false, ==_false, le_of_ltb, lt_of_leb, length,
  get_elem?, get_or, take, drop, replicate, any, All, length-append, length-reverse,
  length-replicate, length-take, length-drop, take-append-drop, take-append, drop-append, take_all,
  get_elem?-append, get_elem?_below, any-append, All-append, any_mem, Some, any_iff, tail_eq,
}
use nsproxy.Rules.Conf.{NspConf}
use nsproxy.Rules.Domains.{nspconf_add_direct_domain}
use nsproxy.Rules.Text.{trim_ascii_space}
use nsproxy.Socks.Codec.{Inet, c_string}
use nsproxy.Options.{
  Result, ok, exits, cannot_open, line_too_long, read_failed, and_then, is_nil, strchr, has_byte,
}
use nsproxy.Options.Cidr.{add_direct_cidr}

-- sizeof(line) - 1
abbrev pub line_size : ℕ
line_size = 1023

-- fgets() with room for `n` bytes: the bytes up to a newline, the newline too, and what follows them.
unfoldable pub fgets : ℕ → List ℕ → List ℕ × List ℕ
fgets zero s = ([], s)
fgets (suc n) [] = ([], [])
fgets (suc n) (b ∷ s) = let r = fgets n s in if b == 10 then (b ∷ [], s) else (b ∷ r.0, r.1)

-- fgets() met the end of the file: there was room, and no newline.
abbrev pub at_eof : List ℕ → Bool
at_eof line = ltb (length line) line_size && not (has_byte 10 line)

abbrev pub before_hash : List ℕ → Option (List ℕ × List ℕ) → List ℕ
before_hash str none = str
before_hash str (some (text, comment)) = text

-- The text of a line without its comment and the spaces around it.
unfoldable pub item_of : List ℕ → List ℕ
item_of str = trim_ascii_space (before_hash str (strchr b'#' str))

unfoldable pub add_text : (NspConf → List ℕ → Result NspConf) → NspConf → List ℕ → Result NspConf
add_text add conf str = if is_nil (item_of str) then ok conf else add conf (item_of str)

-- One round of the loop over the lines.
unfoldable pub add_line : (NspConf → List ℕ → Result NspConf) → NspConf → List ℕ → Result NspConf
add_line add conf line =
    if not (has_byte 10 (c_string line)) && not (at_eof line)
    then exits line_too_long
    else add_text add conf (c_string line)

abbrev pub next_line :
    Result NspConf → (NspConf → Option (Result NspConf)) → Option (Result NspConf)
next_line (ok conf) rest = rest conf
next_line (exits e) rest = some (exits e)

-- The loop; `none` means that the fuel is used up. A read error ends it as the end of the file does, but
-- fgets() then returns NULL also for bytes that it has read of a line.
unfoldable pub lines_loop :
    (NspConf → List ℕ → Result NspConf) → Bool → ℕ → List ℕ → NspConf → Option (Result NspConf)
lines_loop add failed zero s conf = none
lines_loop add failed (suc fuel) [] conf = some (ok conf)
lines_loop add failed (suc fuel) (b ∷ s) conf =
    let r = fgets line_size (b ∷ s) in
    let rest = next_line (add_line add conf r.0) (lines_loop add failed fuel r.1) in
    if failed && at_eof r.0 then some (ok conf) else rest

abbrev pub after_lines : Bool → Option (Result NspConf) → Option (Result NspConf)
after_lines failed (some (ok conf)) = some (if failed then exits read_failed else ok conf)
after_lines failed r = r

-- `opened` is the file's contents, if it opens; `failed` says that reading ends with an error behind
-- them.
unfoldable pub load_file :
    (NspConf → List ℕ → Result NspConf)
    → ℕ
    → Option (List ℕ)
    → Bool
    → NspConf
    → Option (Result NspConf)
load_file add fuel none failed conf = some (exits cannot_open)
load_file add fuel (some s) failed conf = after_lines failed (lines_loop add failed fuel s conf)

unfoldable pub load_direct_cidrs_file :
    Inet → ℕ → Option (List ℕ) → Bool → NspConf → Option (Result NspConf)
load_direct_cidrs_file libc fuel opened failed conf =
    load_file (add_direct_cidr libc) fuel opened failed conf

abbrev pub add_domain : NspConf → List ℕ → Result NspConf
add_domain conf item = ok (nspconf_add_direct_domain conf item)

unfoldable pub load_direct_domains_file :
    ℕ → Option (List ℕ) → Bool → NspConf → Option (Result NspConf)
load_direct_domains_file fuel opened failed conf = load_file add_domain fuel opened failed conf
