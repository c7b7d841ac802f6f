-- ===== src/Options/Files/Items.antt =====
-- The items of the lines of a rule file of src/main.c, without the comments.
use nsproxy.Common.{
  ℕ, ap, inl, inr, Option, none, some, ◌==◌, Bool-cases, ◌≡◌, refl, List, [], ◌∷◌, if◌then◌else◌,
}
use nsproxy.Rules.Conf.{NspConf}
use nsproxy.Rules.Text.{trim_ascii_space}
use nsproxy.Options.{Result, ok, and_then, strchr, further, is_nil}
use nsproxy.Options.Files.{before_hash, item_of, add_text}

-- The item of a line: what stands in front of the first '#', without the spaces around it.
abbrev pub uncommented : List ℕ → List ℕ
uncommented [] = []
uncommented (b ∷ s) = if b == b'#' then [] else b ∷ uncommented s

abbrev pub add_item : (NspConf → List ℕ → Result NspConf) → NspConf → List ℕ → Result NspConf
add_item add conf s =
    let item = trim_ascii_space (uncommented s) in if is_nil item then ok conf else add conf item

before_hash-uncommented : (s : List ℕ) → before_hash s (strchr b'#' s) ≡ uncommented s
unfolding strchr
before_hash-uncommented [] = refl
before_hash-uncommented (b ∷ s) = elim (Bool-cases (b == b'#')) [
  | inl e ↦ rw e refl
  | inr e ↦ rw e (by_rest (strchr b'#' s) (before_hash-uncommented s))
]
  where
    by_rest :
        (o : Option (List ℕ × List ℕ))
        → before_hash s o ≡ uncommented s
        → before_hash (b ∷ s) (further b o) ≡ b ∷ uncommented s
    by_rest none h = ap (◌∷◌ b) h
    by_rest (some (t, u)) h = ap (◌∷◌ b) h

pub add_text-item :
    (add : NspConf → List ℕ → Result NspConf) (conf : NspConf) (s : List ℕ)
    → add_text add conf s ≡ add_item add conf s
unfolding add_text item_of
add_text-item add conf s = rw (before_hash-uncommented s) refl

-- The items of the lines one after the other, up to the first that ends the program.
abbrev pub add_all_items :
    (NspConf → List ℕ → Result NspConf) → List (List ℕ) → NspConf → Result NspConf
add_all_items add [] conf = ok conf
add_all_items add (s ∷ ss) conf = and_then (add_item add conf s) (add_all_items add ss)
