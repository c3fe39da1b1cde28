-- ===== src/RedisDemos/Events.antt =====
-- cmd/redis/key_event_namespace/event.go: the loop over the messages of key events. go-redis, whose
-- text of a message is printed too, is a parameter.
use kratos_demo.Prelude.{
  List, [], ◌∷◌, ◌++◌, String, format, if◌then◌else◌, ◌==◌, string_comparable,
}

pub record Message : Type 0 where
  pub channel : String
  pub payload : String

module _ (text_of : Message → String) where
  -- The lines that are printed for a message.
  unfoldable pub receive : Message → List String
  receive msg =
      format ("Received message: " ∷ msg.channel ∷ " " ∷ msg.payload ∷ "\n" ∷ [])
      ∷ (if msg.channel == "__keyevent@0__:set"
          then format ("A key was set: " ∷ msg.payload ∷ " " ∷ text_of msg ∷ "\n" ∷ []) ∷ []
          else (if msg.channel == "__keyevent@0__:del"
              then format ("A key was deleted: " ∷ msg.payload ∷ "\n" ∷ []) ∷ []
              else []))

  -- The loop runs until the channel is closed.
  unfoldable pub receive_all : List Message → List String
  receive_all [] = []
  receive_all (msg ∷ msgs) = receive msg ++ receive_all msgs
