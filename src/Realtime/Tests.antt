-- ===== src/Realtime/Tests.antt =====
-- The theorems on the hub and on the whole service, at clients of one room.
use go_microservices_chat.Prelude.{String, ℕ, ◌≡◌, refl, ◌≢◌, true, false, [], ◌∷◌, ◌++◌, arith}
use go_microservices_chat.Go.Dict
use go_microservices_chat.Go.Exec.{ok, ◌>>=◌}
use go_microservices_chat.Go.Int.{pos}
use go_microservices_chat.Realtime.Hub.{Hub, Client, registers, unregisters, step, new_channel, has}
use go_microservices_chat.Realtime.ChatClient.{Fake, new_fake, fake_send_message}
use go_microservices_chat.Realtime.Handler.{persists, handle_message, on_frame}
use go_microservices_chat.Realtime.Protocol.{Json}
use go_microservices_chat.Realtime.Pubsub.{RoomEvent, receive, sends, new_in_mem}
use go_microservices_chat.Realtime.System.{
  World, Step, Reach, here, next, connects, runs, reads, fans_out, forwards, idle,
}
use go_microservices_chat.Realtime.System.Overtaking.{Says, published_unasked, overtaken}
use go_microservices_chat.Realtime.System.Shown.{message_shown}
use go_microservices_chat.Realtime.System.Rooms.{InRooms, Reach-InRooms}
use go_microservices_chat.Realtime.Hub.Loop.{
  Loop, Case, from_register, register, turn, panics, local_broadcast, new_hub,
}
use go_microservices_chat.Realtime.Hub.Order.{room_of, registration_order}

abbrev clients : ℕ → Client
clients k = record { user_id = "u1"; room_id = "r1" }

abbrev empty_hub : Hub
empty_hub = record { rooms = Dict.empty; channels = λ k. new_channel (pos 1) }

open_channel : (new_channel (pos 1)).closed ≡ false
unfolding new_channel
open_channel = refl

absent : has 7 (room_of clients 7 empty_hub) ≡ false
unfolding Dict.get Dict.empty
absent = refl

registration_order_example :
    ((h' : Hub) × ((step clients (registers 7) >>= λ _. step clients (unregisters 7)) empty_hub
        ≡ (ok tt, h'))
      × (has 7 (room_of clients 7 h') ≡ false)
      × ((h'.channels 7).closed ≡ true))
    × ((h' : Hub) × ((step clients (unregisters 7) >>= λ _. step clients (registers 7)) empty_hub
          ≡ (ok tt, h'))
        × (has 7 (room_of clients 7 h') ≡ true)
        × ((h'.channels 7).closed ≡ false))
registration_order_example = registration_order clients empty_hub 7 absent open_channel

-- every frame is a message, and its content is its JSON
abbrev bare : Json
bare = record {
  marshal = λ out. ok out.content;
  unmarshal = λ frame. ok (record { type = "message"; content = frame });
}

abbrev event : RoomEvent
event = record { room_id = "r1"; payload = "hello" }

abbrev start : World Fake
start = idle new_fake

-- client 0 has connected, and `Run` has taken its registration
joined : (w : World Fake) × Reach bare fake_send_message clients start w
unfolding register turn new_hub step
joined =
    let l : Loop = record start.loop { register = 0 ∷ [] } in
    let connected : (w : World Fake) × Step bare fake_send_message clients start w =
      (_, connects l refl) in
    (_, next (next here connected.1) (runs from_register _ refl refl))

-- client 0 has sent a message, which was published and handed to the hub
reached : (w : World Fake) × Reach bare fake_send_message clients start w
unfolding joined on_frame handle_message receive local_broadcast new_hub
reached =
    let read : (w : World Fake) × Step bare fake_send_message clients joined.0 w =
      (_, reads 0 0 "hello" refl) in
    let published : (w : World Fake) × Step bare fake_send_message clients read.0 w = (
      _,
      fans_out (persists "u1" "r1" "hello" ∷ []) [] event (record new_in_mem { ch = event ∷ [] })
          refl (sends (omega arith)),
    ) in
    let forwarded : (w : World Fake) × Step bare fake_send_message clients published.0 w =
      (_, forwards event new_in_mem _ refl refl) in
    (forwarded.0, next (next (next joined.1 read.1) published.1) forwarded.1)

Reach-InRooms_example :
    InRooms bare clients reached.0 × ((c : Case) → turn clients c reached.0.loop ≢ panics)
Reach-InRooms_example = Reach-InRooms bare clients fake_send_message new_fake reached.1

says : (frame : String) → Says bare clients 0 0 frame frame
says frame = record { content = frame; read = refl; written = refl }

published_unasked_example :
    (w : World Fake) × Reach bare fake_send_message clients joined.0 w
    × (w.chat ≡ joined.0.chat)
    × (w.pubsub.ch ≡ event ∷ [])
unfolding joined
published_unasked_example =
    published_unasked bare clients fake_send_message joined.0 0 0 "hello" "hello" refl
      (says "hello") (omega arith)

message_shown_example :
    (w' : World Fake) × Reach bare fake_send_message clients joined.0 w'
    × (w'.shown 0 ≡ joined.0.shown 0 ++ "hello" ∷ [])
unfolding joined new_hub Dict.get Dict.put Dict.empty new_channel
message_shown_example =
    message_shown clients bare fake_send_message new_fake 0 0 0 "hello" "hello" joined.1 refl
      (says "hello") refl refl refl refl refl refl refl (omega arith)

overtaken_example :
    (w' : World Fake) × (w'' : World Fake) × Reach bare fake_send_message clients joined.0 w'
    × (w'.tasks
        ≡ (joined.0.tasks ++ (on_frame bare 0 "u1" "r1" "hello").tasks)
          ++ (on_frame bare 0 "u1" "r1" "again").tasks)
    × Reach bare fake_send_message clients w' w''
    × (w''.pubsub.ch ≡ record { room_id = "r1"; payload = "again" } ∷ event ∷ [])
unfolding joined
overtaken_example =
    overtaken bare clients fake_send_message joined.0 0 0 0 "hello" "again" "hello" "again" refl
      (says "hello") (says "again") (omega arith)
