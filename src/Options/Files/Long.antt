-- ===== src/Options/Files/Long.antt =====
-- Lines of rule files of src/main.c that are too long.
use nsproxy.Common.{
  ℕ, zero, suc, ◌<◌, ◌≡◌, refl, ap, ◌∙◌, Bool, true, ◌&&◌, false, some, List, [], ◌∷◌, ◌++◌, arith,
  ltb, ◌==◌, ltb-false, length, All, length-append,
}
use nsproxy.Rules.Conf.{NspConf}
use nsproxy.Options.{Result, ok, exits, line_too_long, has_byte}
use nsproxy.Options.Text.{||_false}
use nsproxy.Options.Outcome.{and_then-ok}
use nsproxy.Options.Files.{line_size, fgets, add_line, lines_loop, load_file}
use nsproxy.Options.Files.Lines.{IsLine, c_string-plain, fgets-newline, add_line-newline}
use nsproxy.Options.Files.Items.{add_item, add_all_items, add_text-item}
use nsproxy.Options.Files.Laws.{at_eof-newline, file_of, loop_step, append_nonempty}

fgets-full :
    (s t : List ℕ) (n : ℕ) → length s ≡ n → has_byte 10 s ≡ false → fgets n (s ++ t) ≡ (s, t)
unfolding fgets
fgets-full [] t zero e h = refl
fgets-full [] t (suc n) e h = absurd (omega (arith, e))
fgets-full (b ∷ s) t zero e h = absurd (omega (arith, e))
fgets-full (b ∷ s) t (suc n) e h =
    let p = ||_false (b == 10) (has_byte 10 s) h in
    rw (p.0, fgets-full s t n (omega (arith, e)) p.1) refl

add_line-long :
    (add : NspConf → List ℕ → Result NspConf) (conf : NspConf) (s : List ℕ)
    → length s ≡ line_size
    → has_byte 10 s ≡ false
    → has_byte 0 s ≡ false
    → add_line add conf s ≡ exits line_too_long
unfolding add_line
add_line-long add conf s e h z =
    let full : ltb (length s) line_size ≡ false =
      ltb-false (length s) line_size (omega (arith, e)) in
    rw (c_string-plain s z, h, full) refl

-- A line of 1023 bytes or more, without a NUL or a newline in its first 1023, ends the program, also
-- when the file ends right behind them. The lines before it are accepted.
pub load_file-long :
    (add : NspConf → List ℕ → Result NspConf) (fuel : ℕ) (ss : List (List ℕ)) (s t : List ℕ)
    (failed : Bool) (conf c : NspConf)
    → All IsLine ss
    → add_all_items add ss conf ≡ ok c
    → length s ≡ line_size
    → has_byte 10 s ≡ false
    → has_byte 0 s ≡ false
    → length (file_of ss (s ++ t)) < fuel
    → load_file add fuel (some (file_of ss (s ++ t))) failed conf ≡ some (exits line_too_long)
unfolding load_file
load_file-long add fuel ss s t failed conf c h accepted size one_line text enough =
    rw (long fuel ss conf h accepted enough) refl
  where
    never : (a : Bool) → (a && false) ≡ false
    never true = refl
    never false = refl

    long :
        (fuel : ℕ) (ss : List (List ℕ)) (conf : NspConf)
        → All IsLine ss
        → add_all_items add ss conf ≡ ok c
        → length (file_of ss (s ++ t)) < fuel
        → lines_loop add failed fuel (file_of ss (s ++ t)) conf ≡ some (exits line_too_long)
    long zero ss conf h a f = absurd (omega (arith, f))
    long (suc fuel) [] conf h a f =
        loop_step add failed fuel (s ++ t) conf
          (λ e. omega (arith, ap length e, length-append s t, size))
          (rw
            (
              fgets-full s t line_size size one_line,
              ltb-false (length s) line_size (omega (arith, size)),
            )
            (never failed))
        ∙ rw (fgets-full s t line_size size one_line, add_line-long add conf s size one_line text)
            refl
    long (suc fuel) (l ∷ ss) conf (h, hs) a f =
        let rest = file_of ss (s ++ t) in
        let less : length rest < fuel = omega (arith, f, length-append l (10 ∷ rest)) in
        let (d, e, b) = and_then-ok (add_item add conf l) (add_all_items add ss) a in
        loop_step add failed fuel (l ++ (10 ∷ rest)) conf (append_nonempty l rest 10)
          (rw (fgets-newline line_size l rest h.short h.one_line) (at_eof-newline failed l))
        ∙ rw
            (
              fgets-newline line_size l rest h.short h.one_line,
              add_line-newline add conf l h,
              add_text-item add conf l,
              e,
            )
            (long fuel ss d hs b less)
