-- ===== src/Sha1/Schedule.antt =====
-- The window of sixteen words of `sha1_process` of light/socket/src/sha1.c, and the schedule of FIPS 180-1.
use light_lua.Prelude.{
  ℕ, zero, suc, ◌+◌, ◌-◌, ◌%◌, ◌≤◌, ◌<◌, ◌≡◌, ◌≢◌, ◌∙◌, bit_and, List, ◌∷◌, length, get_or, set,
  length-set, get_or-set_self, get_or-set_ne, arith,
}
use light_lua.Prelude.Bits.{bit_and_word, bit_and_fifteen}
use light_lua.Sha1.Words.{circular_shift}
use light_lua.Sha1.Lines.{expand}
use light_lua.Sha1.Fips.{rotate_left, next_word}

pub circular_shift-rotate_left : (n x : ℕ) → circular_shift x n ≡ rotate_left n x
unfolding circular_shift rotate_left
circular_shift-rotate_left n x = rw bit_and_word

-- At round `t` the window holds the last sixteen words, each at its number modulo 16.
pub record Window (t : ℕ) (words w : List ℕ) : Type 0 where
  pub sixteen : length w ≡ 16
  pub held : (i : ℕ) → i < 16 → get_or w ((t + 15 - i) % 16) 0 ≡ get_or words i 0

get_or-bit_and :
    (t j i : ℕ) (words w : List ℕ)
    → Window t words w
    → i < 16
    → j % 16 ≡ (t + 15 - i) % 16
    → get_or w (bit_and j 0x0F) 0 ≡ get_or words i 0
get_or-bit_and t j i words w window h e = rw (bit_and_fifteen j, e) (window.held i h)

pub expand-next_word :
    (t : ℕ) (words w : List ℕ) → 16 ≤ t → Window t words w → expand t w ≡ next_word words
unfolding expand next_word
expand-next_word t words w h window =
    rw
      (
        get_or-bit_and t (t - 3) 2 words w window (omega arith) (omega arith),
        get_or-bit_and t (t - 8) 7 words w window (omega arith) (omega arith),
        get_or-bit_and t (t - 14) 13 words w window (omega arith) (omega arith),
        get_or-bit_and t t 15 words w window (omega arith) (omega arith),
      )
      (circular_shift-rotate_left 1 _)

pub Window-set :
    (t x : ℕ) (words w : List ℕ)
    → 16 ≤ t
    → Window t words w
    → Window (suc t) (x ∷ words) (set w (t % 16) x)
Window-set t x words w h window = record {
  sixteen = length-set w (t % 16) x ∙ window.sixteen;
  held = held_after;
}
  where
    held_after :
        (i : ℕ)
        → i < 16
        → get_or (set w (t % 16) x) ((suc t + 15 - i) % 16) 0 ≡ get_or (x ∷ words) i 0
    held_after zero k =
        let here : (suc t + 15 - 0) % 16 ≡ t % 16 = omega arith in
        rw here (get_or-set_self w (t % 16) x 0 (omega (arith, window.sixteen)))
    held_after (suc i) k =
        let there : (suc t + 15 - suc i) % 16 ≡ (t + 15 - i) % 16 = omega arith in
        let apart : t % 16 ≢ (t + 15 - i) % 16 = (λ e. omega (arith, e)) in
        rw there
          (get_or-set_ne w (t % 16) ((t + 15 - i) % 16) x 0 apart ∙ window.held i (omega arith))
