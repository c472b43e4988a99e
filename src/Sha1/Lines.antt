-- ===== src/Sha1/Lines.antt =====
-- The eighty lines `P(...)` of `sha1_process` (light/socket/src/sha1.c), with their macros.
use light_lua.Prelude.{ℕ, ◌-◌, bit_and, bit_or, List, [], ◌∷◌, get_or, set}
use light_lua.Sha1.Words.{add32, circular_shift}
use Prim.Native.Nat.{bit_xor}

pub record Registers : Type 0 where
  pub a : ℕ
  pub b : ℕ
  pub c : ℕ
  pub d : ℕ
  pub e : ℕ

-- The local variables `A` to `E`.
pub data Register : Type 0 where
  ra rb rc rd re : Register

abbrev pub read : Register → Registers → ℕ
read ra r = r.a
read rb r = r.b
read rc r = r.c
read rd r = r.d
read re r = r.e

abbrev pub write : Register → ℕ → Registers → Registers
write ra n r = record r { a = n }
write rb n r = record r { b = n }
write rc n r = record r { c = n }
write rd n r = record r { d = n }
write re n r = record r { e = n }

-- The last argument of a line: `W[i]` or `R(t)`.
pub data Source : Type 0 where
  loaded expanded : ℕ → Source

-- `P(a,b,c,d,e,x)`
pub data Line : Type 0 where
  p : Register → Register → Register → Register → Register → Source → Line

-- The variables `A` to `E` and `W`.
pub record Machine : Type 0 where
  pub registers : Registers
  pub w : List ℕ

-- The value of `R(t)`.
unfoldable pub expand : ℕ → List ℕ → ℕ
expand t w =
    circular_shift
      (bit_xor
        (bit_xor (bit_xor (get_or w (bit_and (t - 3) 0x0F) 0) (get_or w (bit_and (t - 8) 0x0F) 0))
          (get_or w (bit_and (t - 14) 0x0F) 0))
        (get_or w (bit_and t 0x0F) 0))
      1

abbrev pub value : Source → List ℕ → ℕ
value (loaded i) w = get_or w i 0
value (expanded t) w = expand t w

-- `R(t)` stores its value.
abbrev pub stored : Source → List ℕ → List ℕ
stored (loaded i) w = w
stored (expanded t) w = set w (bit_and t 0x0F) (expand t w)

-- The two assignments of `P`, one after another, with the value `x` of its last argument.
abbrev pub assign : (ℕ → ℕ → ℕ → ℕ) → ℕ → Line → ℕ → Registers → Registers
assign f k (p a b c d e source) x r =
    let r' =
      write e
        (add32 (read e r) (
          add32 (add32 (add32 (circular_shift (read a r) 5) (f (read b r) (read c r) (read d r))) k)
            x))
        r in
    write b (circular_shift (read b r') 30) r'

abbrev pub source_of : Line → Source
source_of (p a b c d e source) = source

unfoldable pub run_line : (ℕ → ℕ → ℕ → ℕ) → ℕ → Line → Machine → Machine
run_line f k line m = record {
  registers = assign f k line (value (source_of line) m.w) m.registers;
  w = stored (source_of line) m.w;
}

unfoldable pub run_lines : (ℕ → ℕ → ℕ → ℕ) → ℕ → List Line → Machine → Machine
run_lines f k [] m = m
run_lines f k (line ∷ lines) m = run_lines f k lines (run_line f k line m)

-- `F` and `K` in front of each twenty lines.
unfoldable pub f_1 : ℕ → ℕ → ℕ → ℕ
f_1 x y z = bit_xor z (bit_and x (bit_xor y z))

unfoldable pub f_2 : ℕ → ℕ → ℕ → ℕ
f_2 x y z = bit_xor (bit_xor x y) z

unfoldable pub f_3 : ℕ → ℕ → ℕ → ℕ
f_3 x y z = bit_or (bit_and x y) (bit_and z (bit_or x y))

unfoldable pub f_4 : ℕ → ℕ → ℕ → ℕ
f_4 x y z = bit_xor (bit_xor x y) z

abbrev pub k_1 : ℕ
k_1 = 0x5A827999

abbrev pub k_2 : ℕ
k_2 = 0x6ED9EBA1

abbrev pub k_3 : ℕ
k_3 = 0x8F1BBCDC

abbrev pub k_4 : ℕ
k_4 = 0xCA62C1D6

unfoldable pub lines_1 : List Line
lines_1 =
    p ra rb rc rd re (loaded 0)
    ∷ p re ra rb rc rd (loaded 1)
    ∷ p rd re ra rb rc (loaded 2)
    ∷ p rc rd re ra rb (loaded 3)
    ∷ p rb rc rd re ra (loaded 4)
    ∷ p ra rb rc rd re (loaded 5)
    ∷ p re ra rb rc rd (loaded 6)
    ∷ p rd re ra rb rc (loaded 7)
    ∷ p rc rd re ra rb (loaded 8)
    ∷ p rb rc rd re ra (loaded 9)
    ∷ p ra rb rc rd re (loaded 10)
    ∷ p re ra rb rc rd (loaded 11)
    ∷ p rd re ra rb rc (loaded 12)
    ∷ p rc rd re ra rb (loaded 13)
    ∷ p rb rc rd re ra (loaded 14)
    ∷ p ra rb rc rd re (loaded 15)
    ∷ p re ra rb rc rd (expanded 16)
    ∷ p rd re ra rb rc (expanded 17)
    ∷ p rc rd re ra rb (expanded 18)
    ∷ p rb rc rd re ra (expanded 19)
    ∷ []

unfoldable pub lines_2 : List Line
lines_2 =
    p ra rb rc rd re (expanded 20)
    ∷ p re ra rb rc rd (expanded 21)
    ∷ p rd re ra rb rc (expanded 22)
    ∷ p rc rd re ra rb (expanded 23)
    ∷ p rb rc rd re ra (expanded 24)
    ∷ p ra rb rc rd re (expanded 25)
    ∷ p re ra rb rc rd (expanded 26)
    ∷ p rd re ra rb rc (expanded 27)
    ∷ p rc rd re ra rb (expanded 28)
    ∷ p rb rc rd re ra (expanded 29)
    ∷ p ra rb rc rd re (expanded 30)
    ∷ p re ra rb rc rd (expanded 31)
    ∷ p rd re ra rb rc (expanded 32)
    ∷ p rc rd re ra rb (expanded 33)
    ∷ p rb rc rd re ra (expanded 34)
    ∷ p ra rb rc rd re (expanded 35)
    ∷ p re ra rb rc rd (expanded 36)
    ∷ p rd re ra rb rc (expanded 37)
    ∷ p rc rd re ra rb (expanded 38)
    ∷ p rb rc rd re ra (expanded 39)
    ∷ []

unfoldable pub lines_3 : List Line
lines_3 =
    p ra rb rc rd re (expanded 40)
    ∷ p re ra rb rc rd (expanded 41)
    ∷ p rd re ra rb rc (expanded 42)
    ∷ p rc rd re ra rb (expanded 43)
    ∷ p rb rc rd re ra (expanded 44)
    ∷ p ra rb rc rd re (expanded 45)
    ∷ p re ra rb rc rd (expanded 46)
    ∷ p rd re ra rb rc (expanded 47)
    ∷ p rc rd re ra rb (expanded 48)
    ∷ p rb rc rd re ra (expanded 49)
    ∷ p ra rb rc rd re (expanded 50)
    ∷ p re ra rb rc rd (expanded 51)
    ∷ p rd re ra rb rc (expanded 52)
    ∷ p rc rd re ra rb (expanded 53)
    ∷ p rb rc rd re ra (expanded 54)
    ∷ p ra rb rc rd re (expanded 55)
    ∷ p re ra rb rc rd (expanded 56)
    ∷ p rd re ra rb rc (expanded 57)
    ∷ p rc rd re ra rb (expanded 58)
    ∷ p rb rc rd re ra (expanded 59)
    ∷ []

unfoldable pub lines_4 : List Line
lines_4 =
    p ra rb rc rd re (expanded 60)
    ∷ p re ra rb rc rd (expanded 61)
    ∷ p rd re ra rb rc (expanded 62)
    ∷ p rc rd re ra rb (expanded 63)
    ∷ p rb rc rd re ra (expanded 64)
    ∷ p ra rb rc rd re (expanded 65)
    ∷ p re ra rb rc rd (expanded 66)
    ∷ p rd re ra rb rc (expanded 67)
    ∷ p rc rd re ra rb (expanded 68)
    ∷ p rb rc rd re ra (expanded 69)
    ∷ p ra rb rc rd re (expanded 70)
    ∷ p re ra rb rc rd (expanded 71)
    ∷ p rd re ra rb rc (expanded 72)
    ∷ p rc rd re ra rb (expanded 73)
    ∷ p rb rc rd re ra (expanded 74)
    ∷ p ra rb rc rd re (expanded 75)
    ∷ p re ra rb rc rd (expanded 76)
    ∷ p rd re ra rb rc (expanded 77)
    ∷ p rc rd re ra rb (expanded 78)
    ∷ p rb rc rd re ra (expanded 79)
    ∷ []
