-- ===== src/Sha1/Rounds.antt =====
-- `sha1_process` of light/socket/src/sha1.c, with its window of sixteen words and its registers in
-- turning roles, does the rounds of FIPS 180-1.
use light_lua.Prelude.{
  ℕ, zero, suc, ◌+◌, ◌%◌, ◌^◌, ◌≤◌, ◌≡◌, refl, ap, subst, ◌∙◌, List, [], ◌∷◌, ◌++◌, get_or, arith,
}
use light_lua.Prelude.Bits.{bit_and_fifteen}
use mathlib.Core.Path.{ap₂}
use light_lua.Sha1.Words.{add32, circular_shift}
use light_lua.Sha1.Lines.{
  Registers, ra, rb, rc, rd, re, Source, loaded, expanded, Line, p, Machine, expand, assign,
  run_line, run_lines, value, stored,
}
use light_lua.Sha1.Schedule.{Window, Window-set, circular_shift-rotate_left, expand-next_word}
use light_lua.Sha1.Fips.{rotate_left, Progress, next_word, round, one_round, given, made}

-- Which registers the five arguments of a line are, going round.
pub data Turn : Type 0 where
  first second third fourth fifth : Turn

abbrev pub next : Turn → Turn
next first = second
next second = third
next third = fourth
next fourth = fifth
next fifth = first

abbrev pub line_of : Turn → Source → Line
line_of first = p ra rb rc rd re
line_of second = p re ra rb rc rd
line_of third = p rd re ra rb rc
line_of fourth = p rc rd re ra rb
line_of fifth = p rb rc rd re ra

-- The registers by their roles.
abbrev pub seen : Turn → Registers → Registers
seen first r = r
seen second r = record { a = r.e; b = r.a; c = r.b; d = r.c; e = r.d }
seen third r = record { a = r.d; b = r.e; c = r.a; d = r.b; e = r.c }
seen fourth r = record { a = r.c; b = r.d; c = r.e; d = r.a; e = r.b }
seen fifth r = record { a = r.b; b = r.c; c = r.d; d = r.e; e = r.a }

sum_lem :
    (s s' q q' e x k : ℕ)
    → s ≡ s'
    → q ≡ q'
    → add32 e (add32 (add32 (add32 s q) k) x) ≡ (s' + q' + e + x + k) % 2 ^ 32
unfolding add32
sum_lem s s' q q' e x k es eq = omega (arith, es, eq)

module _ (f g : ℕ → ℕ → ℕ → ℕ) (k : ℕ) (same : (x y z : ℕ) → f x y z ≡ g x y z) where
  seen-assign :
      (u : Turn) (source : Source) (x : ℕ) (r : Registers)
      → seen (next u) (assign f k (line_of u source) x r) ≡ round g k x (seen u r)
  seen-assign u source x r = by_roles u
    where
      fields :
          (a b c d e : ℕ)
          → ◌≡◌ {A = Registers}
              (record {
                a = add32 e (add32 (add32 (add32 (circular_shift a 5) (f b c d)) k) x);
                b = a;
                c = circular_shift b 30;
                d = c;
                e = d;
              })
              (round g k x (record { a = a; b = b; c = c; d = d; e = e }))
      fields a b c d e =
          ap₂ (λ s t. record { a = s; b = a; c = t; d = c; e = d })
            (sum_lem (circular_shift a 5) (rotate_left 5 a) (f b c d) (g b c d) e x k
              (circular_shift-rotate_left 5 a) (same b c d))
            (circular_shift-rotate_left 30 b)

      by_roles :
          (u : Turn) → seen (next u) (assign f k (line_of u source) x r) ≡ round g k x (seen u r)
      by_roles first = fields r.a r.b r.c r.d r.e
      by_roles second = fields r.e r.a r.b r.c r.d
      by_roles third = fields r.d r.e r.a r.b r.c
      by_roles fourth = fields r.c r.d r.e r.a r.b
      by_roles fifth = fields r.b r.c r.d r.e r.a

abbrev pub lines_loaded : ℕ → ℕ → Turn → List Line
lines_loaded zero t u = []
lines_loaded (suc n) t u = line_of u (loaded t) ∷ lines_loaded n (suc t) (next u)

abbrev pub lines_expanded : ℕ → ℕ → Turn → List Line
lines_expanded zero t u = []
lines_expanded (suc n) t u = line_of u (expanded t) ∷ lines_expanded n (suc t) (next u)

abbrev pub turns : ℕ → Turn → Turn
turns zero u = u
turns (suc n) u = turns n (next u)

abbrev pub words_of : ℕ → ℕ → List ℕ → List ℕ
words_of zero t w = []
words_of (suc n) t w = get_or w t 0 ∷ words_of n (suc t) w

pub run_lines-append :
    (f : ℕ → ℕ → ℕ → ℕ) (k : ℕ) (xs ys : List Line) (m : Machine)
    → run_lines f k (xs ++ ys) m ≡ run_lines f k ys (run_lines f k xs m)
unfolding run_lines
run_lines-append f k [] ys m = refl
run_lines-append f k (x ∷ xs) ys m = run_lines-append f k xs ys (run_line f k x m)

-- The machine in round `t`, with its registers in the roles of `u`, stands for `s`.
pub record Follows (t : ℕ) (u : Turn) (m : Machine) (s : Progress) : Type 0 where
  pub same_registers : seen u m.registers ≡ s.registers
  pub same_words : Window t s.words m.w
  pub late : 16 ≤ t

run_line-line_of :
    (f : ℕ → ℕ → ℕ → ℕ) (k : ℕ) (u : Turn) (source : Source) (m : Machine)
    → run_line f k (line_of u source) m ≡ record {
      registers = assign f k (line_of u source) (value source m.w) m.registers;
      w = stored source m.w;
    }
unfolding run_line
run_line-line_of f k first source m = refl
run_line-line_of f k second source m = refl
run_line-line_of f k third source m = refl
run_line-line_of f k fourth source m = refl
run_line-line_of f k fifth source m = refl

module _ (f g : ℕ → ℕ → ℕ → ℕ) (k : ℕ) (same : (x y z : ℕ) → f x y z ≡ g x y z) where
  run_line-loaded :
      (t : ℕ) (u : Turn) (m : Machine) (s : Progress)
      → seen u m.registers ≡ s.registers
      → seen (next u) (run_line f k (line_of u (loaded t)) m).registers
        ≡ (one_round g k (get_or m.w t 0) s).registers
  run_line-loaded t u m s e = rw (run_line-line_of f k u (loaded t) m) (
      seen-assign f g k same u (loaded t) (get_or m.w t 0) m.registers
      ∙ ap (round g k (get_or m.w t 0)) e)

  pub run_lines-loaded :
      (n t : ℕ) (u : Turn) (m : Machine) (s : Progress)
      → seen u m.registers ≡ s.registers
      → (seen (turns n u) (run_lines f k (lines_loaded n t u) m).registers
          ≡ (given g k (words_of n t m.w) s).registers)
        × ((run_lines f k (lines_loaded n t u) m).w ≡ m.w)
  unfolding run_lines given
  run_lines-loaded zero t u m s e = (e, refl)
  run_lines-loaded (suc n) t u m s e =
      let x = get_or m.w t 0 in
      let m' = run_line f k (line_of u (loaded t)) m in
      let kept : m'.w ≡ m.w = ap (λ (y : Machine). y.w) (run_line-line_of f k u (loaded t) m) in
      let (rest, same_w) =
        run_lines-loaded n (suc t) (next u) m' (one_round g k x s) (run_line-loaded t u m s e) in
      (
        subst
            (λ w.
              seen (turns n (next u)) (run_lines f k (lines_loaded n (suc t) (next u)) m').registers
              ≡ (given g k (words_of n (suc t) w) (one_round g k x s)).registers)
            kept rest,
        same_w ∙ kept,
      )

  run_line-expanded :
      (t : ℕ) (u : Turn) (m : Machine) (s : Progress)
      → Follows t u m s
      → Follows
          (suc t)
          (next u)
          (run_line f k (line_of u (expanded t)) m)
          (one_round g k (next_word s.words) s)
  run_line-expanded t u m s follows =
      let x : expand t m.w ≡ next_word s.words =
        expand-next_word t s.words m.w follows.late follows.same_words in
      rw (run_line-line_of f k u (expanded t) m, bit_and_fifteen t, x)
        (record {
          same_registers =
              seen-assign f g k same u (expanded t) (next_word s.words) m.registers
              ∙ ap (round g k (next_word s.words)) follows.same_registers;
          same_words = Window-set t (next_word s.words) s.words m.w follows.late follows.same_words;
          late = omega (arith, follows.late);
        })

  pub run_lines-expanded :
      (n t : ℕ) (u : Turn) (m : Machine) (s : Progress)
      → Follows t u m s
      → Follows (t + n) (turns n u) (run_lines f k (lines_expanded n t u) m) (made g k n s)
  unfolding run_lines made
  run_lines-expanded zero t u m s follows = subst (λ j. Follows j u m s) (omega arith) follows
  run_lines-expanded (suc n) t u m s follows =
      let m' = run_line f k (line_of u (expanded t)) m in
      let s' = one_round g k (next_word s.words) s in
      subst
        (λ j.
          Follows j (turns n (next u)) (run_lines f k (lines_expanded n (suc t) (next u)) m')
            (made g k n s'))
        (omega arith)
        (run_lines-expanded n (suc t) (next u) (run_line f k (line_of u (expanded t)) m)
          (one_round g k (next_word s.words) s) (run_line-expanded t u m s follows))
