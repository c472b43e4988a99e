-- ===== src/Sha1/Copies.antt =====
-- What `memcpy` leaves in the buffer of a context of light/socket/src/sha1.c.
use light_lua.Prelude.{
  ℕ, ◌+◌, ◌≤◌, ◌≡◌, sym, ap, ◌∙◌, List, ◌++◌, length, take, drop, length-append, length-drop,
  take-length_append, arith,
}
use light_lua.Prelude.Slices.{length-take_le, take-append_add}
use light_lua.Sha1.Context.{copy}

pub length-copy :
    (to from : List ℕ) (i n : ℕ)
    → length to ≡ 64
    → i + n ≤ 64
    → n ≤ length from
    → length (copy to i from n) ≡ 64
unfolding copy
length-copy to from i n size h k = omega (
  arith,
  length-append (take i to) (take n from ++ drop (i + n) to),
  length-append (take n from) (drop (i + n) to),
  length-take_le i to (omega arith),
  length-take_le n from k,
  length-drop (i + n) to,
)

-- Up to the copied bytes.
pub take-copy :
    (to from : List ℕ) (i n : ℕ)
    → i ≤ length to
    → n ≤ length from
    → take (i + n) (copy to i from n) ≡ take i to ++ take n from
unfolding copy
take-copy to from i n h k =
    let exact : length (take i to) ≡ i = length-take_le i to h in
    let whole : length (take n from) ≡ n = length-take_le n from k in
    ap (λ j. take (j + n) (take i to ++ (take n from ++ drop (i + n) to))) (sym exact)
    ∙ take-append_add (take i to) n (take n from ++ drop (i + n) to)
    ∙ ap (λ ys. take i to ++ ys)
        (ap (λ j. take j (take n from ++ drop (i + n) to)) (sym whole)
          ∙ take-length_append (take n from) (drop (i + n) to))
