-- ===== src/Sha1/Context.antt =====
-- light/socket/src/sha1.c: `sha1_starts`, `sha1_update` and `sha1_finish`.
use light_lua.Prelude.{
  ℕ, zero, suc, ◌+◌, ◌-◌, ◌/◌, ◌%◌, ◌^◌, bit_and, ltb, leb, ◌==◌, not, ◌&&◌, true, false,
  if◌then◌else◌, List, ◌∷◌, ◌++◌, take, drop, replicate, length,
}
use light_lua.Sha1.Words.{add32, shl32, put_uint32}
use light_lua.Sha1.Lines.{Registers}
use light_lua.Sha1.Process.{sha1_process}

pub record Context : Type 0 where
  pub total_0 : ℕ
  pub total_1 : ℕ
  pub state : Registers
  pub buffer : List ℕ

abbrev pub initial_state : Registers
initial_state = record {
  a = 0x67452301;
  b = 0xEFCDAB89;
  c = 0x98BADCFE;
  d = 0x10325476;
  e = 0xC3D2E1F0;
}

unfoldable pub sha1_starts : Context → Context
sha1_starts ctx = record ctx { total_0 = 0; total_1 = 0; state = initial_state }

-- `memcpy(to + i, from, n)`
unfoldable pub copy : List ℕ → ℕ → List ℕ → ℕ → List ℕ
copy to i from n = take i to ++ (take n from ++ drop (i + n) to)

-- What the loop of `sha1_update` changes: the state, and the input that is left.
pub record Unread : Type 0 where
  pub state : Registers
  pub input : List ℕ
  pub length : ℕ

-- `while( length >= 64 )`, on fuel.
unfoldable pub while_blocks : ℕ → Unread → Unread
while_blocks zero u = u
while_blocks (suc fuel) u = elim (leb 64 u.length) [
  | true ↦ while_blocks fuel (record {
    state = sha1_process u.state (take 64 u.input);
    input = drop 64 u.input;
    length = u.length - 64;
  })
  | false ↦ u
]

-- The counters after `length` more bytes.
unfoldable pub count : ℕ → Context → Context
count length ctx =
    let total_0 = bit_and (add32 ctx.total_0 (shl32 length 3)) 0xFFFFFFFF in
    let total_1 = add32 ctx.total_1 (length / 2 ^ 29) in
    record ctx {
      total_0 = total_0;
      total_1 = add32 total_1 (if ltb total_0 (shl32 length 3) then 1 else 0);
    }

-- The loop and the last `memcpy` of `sha1_update`. Each round takes 64 from `length`, so as much
-- fuel is more than enough.
unfoldable pub update_rest : List ℕ → ℕ → ℕ → Context → Context
update_rest input length left ctx =
    let u = while_blocks length (record { state = ctx.state; input = input; length = length }) in
    record ctx {
      state = u.state;
      buffer = if u.length == 0 then ctx.buffer else copy ctx.buffer left u.input u.length;
    }

unfoldable pub sha1_update : Context → List ℕ → ℕ → Context
sha1_update ctx input length =
    let left = bit_and (ctx.total_0 / 2 ^ 3) 0x3F in
    let fill = 64 - left in
    let counted = count length ctx in
    let full = copy counted.buffer left input fill in
    let ahead =
      update_rest (drop fill input) (length - fill) 0
        (record counted { buffer = full; state = sha1_process counted.state full }) in
    let later = update_rest input length left counted in
    if length == 0 then ctx else if not (left == 0) && leb fill length then ahead else later

abbrev pub sha1_padding : List ℕ
sha1_padding = 0x80 ∷ replicate 63 0

-- The digest that `sha1_finish` stores.
unfoldable pub sha1_finish : Context → List ℕ
sha1_finish ctx =
    let msglen = put_uint32 ctx.total_1 ++ put_uint32 ctx.total_0 in
    let last = bit_and (ctx.total_0 / 2 ^ 3) 0x3F in
    let padn = if ltb last 56 then 56 - last else 120 - last in
    let s = (sha1_update (sha1_update ctx sha1_padding padn) msglen 8).state in
    put_uint32 s.a ++ (put_uint32 s.b ++ (put_uint32 s.c ++ (put_uint32 s.d ++ put_uint32 s.e)))

-- `sha1_context ctx{}`, set to zero and started.
abbrev pub zero_context : Context
zero_context = record {
  total_0 = 0;
  total_1 = 0;
  state = record { a = 0; b = 0; c = 0; d = 0; e = 0 };
  buffer = replicate 64 0;
}

-- The calls that `SocketSHA1` makes: the digest of a text. Its length is passed as a UInt32.
unfoldable pub digest_of : List ℕ → List ℕ
digest_of text = sha1_finish (sha1_update (sha1_starts zero_context) text (length text % 2 ^ 32))
