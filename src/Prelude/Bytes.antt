-- ===== src/Prelude/Bytes.antt =====
-- Lists of bytes.
use light_lua.Prelude.{ℕ, zero, suc, ◌<◌, List, [], ◌∷◌, ◌++◌, take, drop, replicate, get_or, arith}

pub data Bytes : List ℕ → Type 0 where
  none_left : Bytes []
  one_more : (d : ℕ) (ds : List ℕ) → d < 256 → Bytes ds → Bytes (d ∷ ds)

pub Bytes-take : (n : ℕ) (xs : List ℕ) → Bytes xs → Bytes (take n xs)
Bytes-take zero xs h = none_left
Bytes-take (suc n) [] h = none_left
Bytes-take (suc n) (x ∷ xs) (one_more _ _ small rest) =
    one_more x (take n xs) small (Bytes-take n xs rest)

pub Bytes-drop : (n : ℕ) (xs : List ℕ) → Bytes xs → Bytes (drop n xs)
Bytes-drop zero xs h = h
Bytes-drop (suc n) [] h = none_left
Bytes-drop (suc n) (x ∷ xs) (one_more _ _ small rest) = Bytes-drop n xs rest

pub Bytes-append : (xs ys : List ℕ) → Bytes xs → Bytes ys → Bytes (xs ++ ys)
Bytes-append [] ys h k = k
Bytes-append (x ∷ xs) ys (one_more _ _ small rest) k =
    one_more x (xs ++ ys) small (Bytes-append xs ys rest k)

pub Bytes-replicate : (n d : ℕ) → d < 256 → Bytes (replicate n d)
Bytes-replicate zero d small = none_left
Bytes-replicate (suc n) d small = one_more d (replicate n d) small (Bytes-replicate n d small)

pub get_or-Bytes : (xs : List ℕ) (i : ℕ) → Bytes xs → get_or xs i 0 < 256
get_or-Bytes [] i h = omega arith
get_or-Bytes (x ∷ xs) zero (one_more _ _ small rest) = small
get_or-Bytes (x ∷ xs) (suc i) (one_more _ _ small rest) = get_or-Bytes xs i rest
