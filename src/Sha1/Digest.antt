-- ===== src/Sha1/Digest.antt =====
-- The digest that light/socket/src/sha1.c computes is the one of FIPS 180-1.
use light_lua.Prelude.{
  ℕ, zero, suc, ◌-◌, ◌*◌, ◌/◌, ◌%◌, ◌^◌, ◌≤◌, ◌≡◌, refl, ap, ◌∙◌, bit_and, ltb, if◌then◌else◌, List,
  [], ◌∷◌, ◌++◌, length, take, replicate, arith,
}
use light_lua.Prelude.Bits.{bit_and_sixty_three}
use mathlib.Core.List.{append_assoc}
use light_lua.Sha1.Words.{put_uint32}
use light_lua.Sha1.Blocks.{process_blocks-hash_blocks}
use light_lua.Prelude.Bytes.{Bytes, none_left, one_more, Bytes-take, Bytes-append, Bytes-replicate}
use light_lua.Sha1.Fips.{hash_blocks, first_state, word_bytes, long_bytes, padded, message_digest}
use light_lua.Sha1.Loop.{process_blocks}
use light_lua.Sha1.Context.{
  Context, initial_state, sha1_starts, sha1_update, sha1_padding, sha1_finish, zero_context,
  digest_of,
}
use light_lua.Sha1.Absorbing.{held}
use light_lua.Sha1.Message.{Represents, sha1_update-Represents}

pub sha1_starts-Represents : Represents (sha1_starts zero_context) []
unfolding sha1_starts process_blocks
sha1_starts-Represents = record {
  full_size = refl;
  low = omega arith;
  high = omega arith;
  counted = refl;
  hashed = refl;
  pending = refl;
}

take-replicate : (m n : ℕ) (a : ℕ) → m ≤ n → take m (replicate n a) ≡ replicate m a
take-replicate zero n a h = refl
take-replicate (suc m) zero a h = absurd (omega arith)
take-replicate (suc m) (suc n) a h = ap (◌∷◌ a) (take-replicate m n a (omega arith))

-- The number of padding bytes behind `last` bytes of a block.
abbrev padn : ℕ → ℕ
padn last = if ltb last 56 then 56 - last else 120 - last

padn_lem : (l : ℕ) → (padn (l % 64) ≡ suc ((119 - l % 64) % 64)) × (padn (l % 64) ≤ 64)
padn_lem l = (ground arith, ground arith)

take-sha1_padding :
    (l : ℕ) → take (padn (l % 64)) sha1_padding ≡ 0x80 ∷ replicate ((119 - l % 64) % 64) 0
take-sha1_padding l =
    let (size, small) = padn_lem l in
    rw size (ap (◌∷◌ 0x80) (take-replicate ((119 - l % 64) % 64) 63 0 (omega arith)))

bytes_eq :
    {a b c d e f g h a' b' c' d' e' f' g' h' : ℕ}
    → a ≡ a'
    → b ≡ b'
    → c ≡ c'
    → d ≡ d'
    → e ≡ e'
    → f ≡ f'
    → g ≡ g'
    → h ≡ h'
    → a ∷ b ∷ c ∷ d ∷ e ∷ f ∷ g ∷ h ∷ [] ≡ a' ∷ b' ∷ c' ∷ d' ∷ e' ∷ f' ∷ g' ∷ h' ∷ []
bytes_eq p q r s t u v w = rw (p, q, r, s, t, u, v, w) refl

word_bytes-Bytes : (n : ℕ) → Bytes (word_bytes n)
word_bytes-Bytes n =
    one_more _ _ (omega arith) (
      one_more _ _ (omega arith)
        (one_more _ _ (omega arith) (one_more _ _ (omega arith) none_left)))

long_bytes-Bytes : (n : ℕ) → Bytes (long_bytes n)
long_bytes-Bytes n = one_more _ _ (omega arith) (
    one_more _ _ (omega arith)
      (one_more _ _ (omega arith) (one_more _ _ (omega arith) (word_bytes-Bytes n))))

pub message_digest-Bytes : (msg : List ℕ) → Bytes (message_digest msg)
unfolding message_digest
message_digest-Bytes msg =
    let s = hash_blocks (length (padded msg) / 64) first_state (padded msg) in
    Bytes-append (word_bytes s.a) _ (word_bytes-Bytes s.a) (
      Bytes-append (word_bytes s.b) _ (word_bytes-Bytes s.b) (
        Bytes-append (word_bytes s.c) _ (word_bytes-Bytes s.c)
          (Bytes-append (word_bytes s.d) _ (word_bytes-Bytes s.d) (word_bytes-Bytes s.e))))

padded-Bytes : (msg : List ℕ) → Bytes msg → Bytes (padded msg)
unfolding padded
padded-Bytes msg h = Bytes-append msg _ h (
    one_more 0x80 _ (omega arith) (
      Bytes-append (replicate ((119 - length msg % 64) % 64) 0) _
        (Bytes-replicate ((119 - length msg % 64) % 64) 0 (omega arith))
        (long_bytes-Bytes (8 * length msg % 2 ^ 64))))

module _ (ctx : Context) (msg : List ℕ) (stands : Represents ctx msg) where
  msglen_lem :
      put_uint32 ctx.total_1 ++ put_uint32 ctx.total_0 ≡ long_bytes (8 * length msg % 2 ^ 64)
  msglen_lem =
      bytes_eq (omega (arith, stands.counted, stands.low))
        (omega (arith, stands.counted, stands.low)) (omega (arith, stands.counted, stands.low))
        (omega (arith, stands.counted, stands.low)) (omega (arith, stands.counted, stands.low))
        (omega (arith, stands.counted, stands.low)) (omega (arith, stands.counted, stands.low))
        (omega (arith, stands.counted, stands.low))

  held_lem : held ctx ≡ length msg % 64
  held_lem = omega (arith, stands.counted, stands.low)

  last_lem : bit_and (ctx.total_0 / 2 ^ 3) 0x3F ≡ length msg % 64
  last_lem = bit_and_sixty_three (ctx.total_0 / 8) ∙ held_lem

  abbrev msglen : List ℕ
  msglen = put_uint32 ctx.total_1 ++ put_uint32 ctx.total_0

  final_state :
      Bytes msg
      → (sha1_update (sha1_update ctx sha1_padding (padn (length msg % 64))) msglen 8).state
        ≡ hash_blocks (length (padded msg) / 64) first_state (padded msg)
  unfolding padded
  final_state h =
      let l = length msg in
      let (size, small) = padn_lem l in
      let padding = take (padn (l % 64)) sha1_padding in
      let r2 =
        sha1_update-Represents ctx msg sha1_padding (padn (l % 64)) stands (omega arith)
          (omega arith) in
      let r3 =
        sha1_update-Represents (sha1_update ctx sha1_padding (padn (l % 64))) (msg ++ padding)
          msglen 8 r2 (omega arith) (omega arith) in
      let whole : (msg ++ padding) ++ take 8 msglen ≡ padded msg =
        append_assoc msg padding msglen
        ∙ ap (λ ys. msg ++ (ys ++ msglen)) (take-sha1_padding l)
        ∙ ap (λ ys. msg ++ ((0x80 ∷ replicate ((119 - l % 64) % 64) 0) ++ ys)) msglen_lem in
      r3.hashed
      ∙ ap (λ m. process_blocks (length m / 64) initial_state m) whole
      ∙ process_blocks-hash_blocks (length (padded msg) / 64) first_state (padded msg)
          (padded-Bytes msg h)

  sha1_finish-message_digest : Bytes msg → sha1_finish ctx ≡ message_digest msg
  unfolding sha1_finish message_digest
  sha1_finish-message_digest h = rw last_lem (
      ap
        (λ s.
          word_bytes s.a
          ++ (word_bytes s.b ++ (word_bytes s.c ++ (word_bytes s.d ++ word_bytes s.e))))
        (final_state h))

-- For every text of bytes the digest is the one that FIPS 180-1 gives for its first bytes, as many
-- as its length modulo 2^32: for the whole text, where it is shorter than 2^32 bytes.
pub digest_of-message_digest :
    (text : List ℕ)
    → Bytes text
    → digest_of text ≡ message_digest (take (length text % 2 ^ 32) text)
unfolding digest_of
digest_of-message_digest text h =
    let n = length text % 2 ^ 32 in
    sha1_finish-message_digest (sha1_update (sha1_starts zero_context) text n) (take n text)
      (sha1_update-Represents (sha1_starts zero_context) [] text n sha1_starts-Represents
        (omega arith) (omega arith))
      (Bytes-take n text h)
