-- ===== src/Session/Frames.antt =====
-- What the binding relies on: the methods leave a socket's buffer and its size to their caller, and
-- the table functions only read.
use light_lua.Prelude.{ℕ, ◌<◌, ◌≡◌, ℤ, List, [], ◌∷◌}
use light_lua.Socket.{Socket, zero_socket}
use light_lua.Machine.{State, Outcome, returns, raises, undefined}
use light_lua.Backend.{Backend, Method}
use light_lua.Session.Sound.{Any, socket_count}

-- The buffer and its size are the same in both.
abbrev pub SameBuffer : Socket → Socket → Type 0
SameBuffer s t = (s.buffer ≡ t.buffer) × (s.buffer_size ≡ t.buffer_size)

abbrev pub Keeps : {W A : Type 0} → Method W A → Type 0
Keeps {W} {A} call = (s : Socket) (w : W) → SameBuffer (call s w).1 s

-- A call that only reads: it leaves the state as it is, and its value is one of `Q`.
abbrev pub Stays : {W A : Type 0} → State W → (A → Type 0) → Outcome W A → Type 0
Stays st Q (returns a st') = (st' ≡ st) × Q a
Stays st Q (raises e st') = st' ≡ st
Stays st Q undefined = Unit {0}

-- Places of the first `n` sockets.
abbrev pub Below : ℕ → List ℕ → Type 0
Below n [] = Unit {0}
Below n (p ∷ ps) = (p < n) × Below n ps

pub record Frames {W F V : Type 0} (b : Backend W F V) : Type 0 where
  pub init_clears : SameBuffer (b.init zero_socket) zero_socket
  pub keeps_tcp : Keeps b.tcp
  pub keeps_udp : Keeps b.udp
  pub keeps_connect : (host : List ℕ) (port : ℕ) → Keeps (b.connect host port)
  pub keeps_connect_now : (host : List ℕ) (port : ℕ) → Keeps (b.connect_now host port)
  pub keeps_bind : (host : List ℕ) (port : ℕ) → Keeps (b.bind host port)
  pub keeps_listen : (n : ℤ) → Keeps (b.listen n)
  pub keeps_accept : (c : Socket) → Keeps (b.accept c)
  pub keeps_accept_now : (c : Socket) → Keeps (b.accept_now c)
  pub accept_client :
      (c s : Socket) (w : W)
      → SameBuffer (b.accept c s w).0.1 c × SameBuffer (b.accept_now c s w).0.1 c
  pub keeps_receive : (n : ℕ) → Keeps (b.receive n)
  pub keeps_receive_now : (n : ℕ) → Keeps (b.receive_now n)
  pub keeps_receive_from : (host : List ℕ) (port n : ℕ) → Keeps (b.receive_from host port n)
  pub keeps_receive_from_now : (host : List ℕ) (port n : ℕ) → Keeps (b.receive_from_now host port n)
  pub keeps_send : (bytes : List ℕ) → Keeps (b.send bytes)
  pub keeps_send_now : (bytes : List ℕ) → Keeps (b.send_now bytes)
  pub keeps_send_to :
      (host : List ℕ) (port : ℕ) (bytes : List ℕ) → Keeps (b.send_to host port bytes)
  pub keeps_send_to_now :
      (host : List ℕ) (port : ℕ) (bytes : List ℕ) → Keeps (b.send_to_now host port bytes)
  pub keeps_shutdown : (how : ℤ) → Keeps (b.shutdown how)
  pub keeps_close : Keeps b.close
  pub fills_stay : (vs : List V) (s : F) (st : State W) → Stays st Any (b.table_to_fd_set vs s st)
  pub lists_stay :
      (vs : List V) (s : F) (maxfd : ℤ) (st : State W)
      → Stays st (Below (socket_count st)) (b.fd_set_to_table vs s maxfd st)
