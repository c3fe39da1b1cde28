-- ===== src/Ws/Tests.antt =====
-- The websocket theorems on short runs.
use kratos_demo.Prelude.{
  ◌≡◌, refl, inl, inr, true, false, none, some, List, [], ◌∷◌, ◌++◌, In, String, arith, ltb,
  if◌then◌else◌,
}
use kratos_demo.Ws.Echo.{Connection, read_failed, ws_handler, ws_handler_ends}
use kratos_demo.Ws.Client
use kratos_demo.Ws.Client.{
  Client, connected, step, interrupted, second_passed, waiting, returned, close_message, IsOrderly,
  Reach-IsOrderly, interrupted_ends,
}
use kratos_demo.Ws.Broadcast.{
  Server, new_server, join, read_message, read_error, hand_over, broadcast_round, deliver, joins,
  reads, hands_over, broadcasts, Reach, start, next,
}
use kratos_demo.Ws.Broadcast.Order.{Reach-received}

-- It reads one message, and then fails.
abbrev once : Connection
once = record {
  E = String;
  read = λ i. if ltb i 1 then inr (1, "hello") else inl "close 1000";
  write = λ i. none;
}

ws_handler_ends_example :
    ws_handler once 5 none ≡ some (some ((1, "hello") ∷ [], read_failed "close 1000"))
ws_handler_ends_example =
    ws_handler_ends once 1 5 (λ i. (1, "hello")) (read_failed "close 1000")
      (λ j l. (ground (arith, l), refl)) refl (omega arith)

abbrev closing : Client
closing = record { phase = waiting; done = false; sent = close_message ∷ [] }

closing_Reach : Client.Reach connected closing
unfolding step
closing_Reach = Client.next Client.here (interrupted true) refl

-- Client 1 joins and says "hi"; client 2 joins before that is broadcast, and only client 2 can be
-- written to.
abbrev said : Server
said =
    broadcast_round (λ c. ltb c 2) "hi"
      (hand_over 1 "hi" (join 2 (read_message 1 "hi" (join 1 new_server))))

said_Reach : Reach said
said_Reach =
    next
      (next (next (next (next start (joins 1 refl)) (reads 1 "hi" refl)) (joins 2 refl))
        (hands_over 1 "hi" refl refl))
      (broadcasts (λ c. ltb c 2) "hi" refl)

said_clients : said.clients ≡ 2 ∷ []
unfolding broadcast_round deliver
said_clients = refl

-- A client whose connection is closed after a failed read stays in the map.
left_clients : (read_error 1 (join 1 new_server)).clients ≡ 1 ∷ []
left_clients = refl

Reach-received_example :
    ((later missed : List String) × (said.broadcast ≡ later ++ said.received 2 ++ missed))
    × (In 2 said.clients → (missed : List String) × (said.broadcast ≡ said.received 2 ++ missed))
Reach-received_example = Reach-received {s = said} said_Reach 2
