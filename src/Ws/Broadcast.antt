-- ===== src/Ws/Broadcast.antt =====
-- cmd/design/lottery/timeline/timeline.go: the server that broadcasts each message to all clients. A
-- client is a number; a section under the mutex is one step, and the steps of the handlers and of the
-- broadcaster interleave freely. The channel is not buffered, so the broadcaster takes a message from
-- the handler that offers it.
pub mod Deliver
pub mod Order
pub mod Heard
use kratos_demo.Prelude.{
  ℕ, ◌≡◌, Bool, true, false, not, Option, none, some, List, [], ◌∷◌, In, String, if◌then◌else◌,
  ◌==◌, nat_comparable, arith,
}
use kratos_demo.Prelude.Selection.{select}

-- Where a client's HandleClient stands: not called yet, at ReadMessage, at the channel with a message,
-- or returned, with the connection closed.
pub data Handler : Type 0 where
  absent reading returned : Handler
  offering : String → Handler

-- `clients` is the map; `taken` is the message that Broadcast works on. The other fields record what
-- happened, newest first: the messages read, the messages broadcast, and what each client was sent.
pub record Server : Type 0 where
  pub clients : List ℕ
  pub handlers : ℕ → Handler
  pub taken : Option String
  pub read : List String
  pub broadcast : List String
  pub received : ℕ → List String

abbrev pub new_server : Server
new_server = record {
  clients = [];
  handlers = λ c. absent;
  taken = none;
  read = [];
  broadcast = [];
  received = λ c. [];
}

-- A function changed at one client.
abbrev pub update : {A : Type 0} → ℕ → A → (ℕ → A) → ℕ → A
update c a f x = if x == c then a else f x

-- The loop over the clients: the function tells whose write fails. These are closed and deleted.
unfoldable pub deliver :
    (ℕ → Bool) → String → List ℕ → (ℕ → List String) → List ℕ × (ℕ → List String)
deliver fails msg [] received = ([], received)
deliver fails msg (c ∷ clients) received =
    let received' = if fails c then received else update c (msg ∷ received c) received in
    let (clients', received'') = deliver fails msg clients received' in
    (if fails c then clients' else c ∷ clients', received'')

-- HandleClient begins: `ws.clients[conn] = true`.
abbrev pub join : ℕ → Server → Server
join c s = record s { clients = c ∷ s.clients; handlers = update c reading s.handlers }

abbrev pub read_message : ℕ → String → Server → Server
read_message c msg s = record s {
  handlers = update c (offering msg) s.handlers;
  read = msg ∷ s.read;
}

-- HandleClient leaves its loop and closes the connection; the map keeps it.
abbrev pub read_error : ℕ → Server → Server
read_error c s = record s { handlers = update c returned s.handlers }

-- `ws.broadcast <- msg` meets `msg := <-ws.broadcast`.
abbrev pub hand_over : ℕ → String → Server → Server
hand_over c msg s = record s { handlers = update c reading s.handlers; taken = some msg }

-- The rest of Broadcast's round, under the mutex.
unfoldable pub broadcast_round : (ℕ → Bool) → String → Server → Server
broadcast_round fails msg s =
    let (clients, received) = deliver fails msg s.clients s.received in
    record s { clients = clients; received = received; taken = none; broadcast = msg ∷ s.broadcast }

pub data Step (s : Server) : Server → Type 0 where
  joins : (c : ℕ) → s.handlers c ≡ absent → Step s (join c s)
  reads : (c : ℕ) (msg : String) → s.handlers c ≡ reading → Step s (read_message c msg s)
  fails_to_read : (c : ℕ) → s.handlers c ≡ reading → Step s (read_error c s)
  hands_over :
      (c : ℕ) (msg : String)
      → s.handlers c ≡ offering msg
      → s.taken ≡ none
      → Step s (hand_over c msg s)
  broadcasts :
      (fails : ℕ → Bool) (msg : String) → s.taken ≡ some msg → Step s (broadcast_round fails msg s)

pub data Reach : Server → Type 0 where
  start : Reach new_server
  next : {s t : Server} → Reach s → Step s t → Reach t
