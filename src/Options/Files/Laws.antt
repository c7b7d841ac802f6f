-- ===== src/Options/Files/Laws.antt =====
-- Whole rule files of src/main.c: the loop over the lines ends, and it adds line by line.
use nsproxy.Common.{
  ℕ, zero, suc, ap, true, false, ◌&&◌, ◌||◌, ltb, ◌==◌, if_cases, lt→ltb, any-append, ◌<◌, ◌≡◌,
  refl, ◌∙◌, ◌≢◌, Bool, some, List, [], ◌∷◌, ◌++◌, arith, if◌then◌else◌, length, All, length-append,
}
use mathlib.Core.Path.{fun_ext}
use nsproxy.Rules.Conf.{NspConf}
use nsproxy.Rules.Text.{trim_ascii_space, skip_space}
use nsproxy.Options.{Result, ok, exits, read_failed, and_then, has_byte}
use nsproxy.Options.Files.{
  line_size, fgets, at_eof, add_line, next_line, lines_loop, after_lines, load_file,
}
use nsproxy.Options.Files.Items.{add_item, add_all_items, add_text-item}
use nsproxy.Options.Files.Lines.{
  IsLine, fgets_progress, fgets-newline, fgets-last, add_line-newline, add_line-last,
}

-- One unit of fuel more than the bytes of the file is enough.
lines_loop_ends :
    (add : NspConf → List ℕ → Result NspConf) (failed : Bool) (fuel : ℕ) (s : List ℕ)
    (conf : NspConf)
    → length s < fuel
    → (r : Result NspConf) × (lines_loop add failed fuel s conf ≡ some r)
unfolding lines_loop
lines_loop_ends add failed zero s conf h = absurd (omega (arith, h))
lines_loop_ends add failed (suc fuel) [] conf h = (ok conf, refl)
lines_loop_ends add failed (suc fuel) (b ∷ s) conf h =
    let line = fgets line_size (b ∷ s) in
    if_cases (λ o. (r : Result NspConf) × (o ≡ some r)) (failed && at_eof line.0) _ _
      (λ _. (ok conf, refl))
      (λ _.
        by_line (add_line add conf line.0) (λ c.
          lines_loop_ends add failed fuel line.1 c (omega (arith, h, fgets_progress 1022 b s))))
  where
    by_line :
        (t : Result NspConf)
        → ((c : NspConf)
            → (r : Result NspConf) × (lines_loop add failed fuel (fgets line_size (b ∷ s)).1 c
                ≡ some r))
        → (r : Result NspConf) × (next_line t
              (lines_loop add failed fuel (fgets line_size (b ∷ s)).1)
            ≡ some r)
    by_line (ok c) f = f c
    by_line (exits e) f = (exits e, refl)

-- A file of lines that end in a newline, and of what follows the last.
abbrev pub file_of : List (List ℕ) → List ℕ → List ℕ
file_of [] last = last
file_of (s ∷ ss) last = s ++ (10 ∷ file_of ss last)

-- A round of the loop, unless an error cuts the line short.
pub loop_step :
    (add : NspConf → List ℕ → Result NspConf) (failed : Bool) (fuel : ℕ) (s : List ℕ)
    (conf : NspConf)
    → s ≢ []
    → (failed && at_eof (fgets line_size s).0) ≡ false
    → let r = fgets line_size s in
      lines_loop add failed (suc fuel) s conf
      ≡ next_line (add_line add conf r.0) (lines_loop add failed fuel r.1)
unfolding lines_loop
loop_step add failed fuel [] conf h e = absurd (h refl)
loop_step add failed fuel (b ∷ s) conf h e = rw e refl

pub at_eof-newline : (failed : Bool) (s : List ℕ) → (failed && at_eof (s ++ (10 ∷ []))) ≡ false
at_eof-newline failed s =
    let ends : has_byte 10 (s ++ (10 ∷ [])) ≡ true =
      any-append (λ b. b == 10) s (10 ∷ []) ∙ absorb (has_byte 10 s) in
    rw ends (never failed (ltb (length (s ++ (10 ∷ []))) line_size))
  where
    absorb : (a : Bool) → (a || true) ≡ true
    absorb true = refl
    absorb false = refl

    never : (a b : Bool) → (a && (b && false)) ≡ false
    never true true = refl
    never true false = refl
    never false b = refl

pub append_nonempty : (s t : List ℕ) (b : ℕ) → s ++ (b ∷ t) ≢ []
append_nonempty [] t b e = cc (e)
append_nonempty (c ∷ s) t b e = cc (e)

next_line-some :
    (t : Result NspConf) (f : NspConf → Result NspConf)
    → next_line t (λ c. some (f c)) ≡ some (and_then t f)
next_line-some (ok c) f = refl
next_line-some (exits e) f = refl

-- The last line, which is added unless an error comes behind it.
last_line :
    (add : NspConf → List ℕ → Result NspConf) (failed : Bool) (fuel : ℕ) (s : List ℕ)
    (conf : NspConf)
    → IsLine s
    → length s < fuel
    → lines_loop add failed fuel s conf
      ≡ some (if failed then ok conf else add_all_items add (s ∷ []) conf)
unfolding lines_loop trim_ascii_space skip_space
last_line add failed zero s conf h f = absurd (omega (arith, f))
last_line add true (suc fuel) [] conf h f = refl
last_line add false (suc fuel) [] conf h f = refl
last_line add failed (suc zero) (b ∷ s) conf h f = absurd (omega (arith, f))
last_line add true (suc (suc fuel)) (b ∷ s) conf h f =
    rw
      (
        fgets-last line_size (b ∷ s) h.short h.one_line,
        h.one_line,
        lt→ltb (length (b ∷ s)) line_size h.short,
      )
      refl
last_line add false (suc (suc fuel)) (b ∷ s) conf h f =
    rw
      (
        fgets-last line_size (b ∷ s) h.short h.one_line,
        add_line-last add conf (b ∷ s) h,
        add_text-item add conf (b ∷ s),
      )
      (next_line-some (add_item add conf (b ∷ s)) (λ c. ok c))

-- The lines of a file; the last counts unless an error comes behind it.
abbrev pub counted : Bool → List (List ℕ) → List ℕ → List (List ℕ)
counted failed ss last = if failed then ss else ss ++ (last ∷ [])

last_counted :
    (add : NspConf → List ℕ → Result NspConf) (failed : Bool) (last : List ℕ) (conf : NspConf)
    → (if failed then ok conf else add_all_items add (last ∷ []) conf)
      ≡ add_all_items add (counted failed [] last) conf
last_counted add true last conf = refl
last_counted add false last conf = refl

more_counted :
    (add : NspConf → List ℕ → Result NspConf) (failed : Bool) (s : List ℕ) (ss : List (List ℕ))
    (last : List ℕ) (conf : NspConf)
    → and_then (add_item add conf s) (add_all_items add (counted failed ss last))
      ≡ add_all_items add (counted failed (s ∷ ss) last) conf
more_counted add true s ss last conf = refl
more_counted add false s ss last conf = refl

lines_loop-file_of :
    (add : NspConf → List ℕ → Result NspConf) (failed : Bool) (fuel : ℕ) (ss : List (List ℕ))
    (last : List ℕ) (conf : NspConf)
    → All IsLine ss
    → IsLine last
    → length (file_of ss last) < fuel
    → lines_loop add failed fuel (file_of ss last) conf
      ≡ some (add_all_items add (counted failed ss last) conf)
lines_loop-file_of add failed fuel [] last conf h hl f =
    last_line add failed fuel last conf hl f ∙ ap some (last_counted add failed last conf)
lines_loop-file_of add failed zero (s ∷ ss) last conf h hl f = absurd (omega (arith, f))
lines_loop-file_of add failed (suc fuel) (s ∷ ss) last conf (h, hs) hl f =
    let rest = file_of ss last in
    let enough : length rest < fuel = omega (arith, f, length-append s (10 ∷ rest)) in
    let cut = fgets-newline line_size s rest h.short h.one_line in
    let later = fun_ext (λ c. lines_loop-file_of add failed fuel ss last c hs hl enough) in
    let whole : (failed && at_eof (fgets line_size (s ++ (10 ∷ rest))).0) ≡ false =
      rw cut (at_eof-newline failed s) in
    loop_step add failed fuel (s ++ (10 ∷ rest)) conf (append_nonempty s rest 10) whole
    ∙ rw (cut, add_line-newline add conf s h, add_text-item add conf s, later)
        (next_line-some (add_item add conf s) (add_all_items add (counted failed ss last)))
    ∙ ap some (more_counted add failed s ss last conf)

-- A rule file never hangs the program: with one unit of fuel more than its bytes the loop has an end,
-- whatever the bytes are.
pub load_file-ends :
    (add : NspConf → List ℕ → Result NspConf) (fuel : ℕ) (s : List ℕ) (failed : Bool)
    (conf : NspConf)
    → length s < fuel
    → (r : Result NspConf) × (load_file add fuel (some s) failed conf ≡ some r)
unfolding load_file
load_file-ends add fuel s failed conf h =
    let (r, e) = lines_loop_ends add failed fuel s conf h in rw e (by_result r)
  where
    by_result : (r : Result NspConf) → (q : Result NspConf) × (after_lines failed (some r) ≡ some q)
    by_result (ok c) = (if failed then exits read_failed else ok c, refl)
    by_result (exits e) = (exits e, refl)

-- Lines of at most 1022 bytes, without a NUL, are added one after the other, up to the first that ends
-- the program: of each what stands in front of the first '#', without the spaces around it, if
-- anything is left. The last need not end in a newline. If reading fails behind the lines, what was
-- read of the last is not added, and the program ends.
pub load_file-lines :
    (add : NspConf → List ℕ → Result NspConf) (fuel : ℕ) (ss : List (List ℕ)) (last : List ℕ)
    (failed : Bool) (conf : NspConf)
    → All IsLine ss
    → IsLine last
    → length (file_of ss last) < fuel
    → load_file add fuel (some (file_of ss last)) failed conf ≡ (
        if failed
        then some (and_then (add_all_items add ss conf) (λ c. exits read_failed))
        else some (add_all_items add (ss ++ (last ∷ [])) conf))
unfolding load_file
load_file-lines add fuel ss last failed conf h hl f =
    rw (lines_loop-file_of add failed fuel ss last conf h hl f) (by_error failed)
  where
    then_failed :
        (r : Result NspConf)
        → after_lines true (some r) ≡ some (and_then r (λ c. exits read_failed))
    then_failed (ok c) = refl
    then_failed (exits e) = refl

    unfailed : (r : Result NspConf) → after_lines false (some r) ≡ some r
    unfailed (ok c) = refl
    unfailed (exits e) = refl

    by_error :
        (failed : Bool)
        → after_lines failed (some (add_all_items add (counted failed ss last) conf)) ≡ (
            if failed
            then some (and_then (add_all_items add ss conf) (λ c. exits read_failed))
            else some (add_all_items add (ss ++ (last ∷ [])) conf))
    by_error true = then_failed (add_all_items add ss conf)
    by_error false = unfailed (add_all_items add (ss ++ (last ∷ [])) conf)
