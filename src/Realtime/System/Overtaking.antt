-- ===== src/Realtime/System/Overtaking.antt =====
-- Every message gets its own task, which runs on its own: one message can overtake another, and what is
-- sent to a room does not wait for the chat service.
use mathlib.Core.List.{append_assoc, append-nil}
use go_microservices_chat.Prelude.{
  ℕ, ◌+◌, ◌<◌, String, ◌≡◌, refl, sym, ap, ◌∙◌, List, [], ◌∷◌, ◌++◌, arith, length, length-append,
}
use go_microservices_chat.Go.Exec.{ok}
use go_microservices_chat.Go.Time.{Time}
use go_microservices_chat.Realtime.ChatClient
use go_microservices_chat.Realtime.Handler.{
  Task, persists, publishes, handle_message, on_frame, outbound_message,
}
use go_microservices_chat.Realtime.Hub.{Client}
use go_microservices_chat.Realtime.Protocol.{Json}
use go_microservices_chat.Realtime.Pubsub.{RoomEvent, sends, capacity}
use go_microservices_chat.Realtime.System.{World, Reach, here, next, reads, fans_out, serving}

module _ (json : Json) (clients : ℕ → Client) where
  -- the frame is a message, and `payload` is its JSON for the room
  pub record Says (k : ℕ) (now : Time) (frame payload : String) : Type 0 where
    pub content : String
    pub read : json.unmarshal frame ≡ ok (record { type = "message"; content = content })
    pub written :
        json.marshal (outbound_message now (clients k).user_id (clients k).room_id content)
        ≡ ok payload

  abbrev pub event : ℕ → String → RoomEvent
  event k payload = record { room_id = (clients k).room_id; payload = payload }

  module _ (k : ℕ) (now : Time) (frame payload : String) (s : Says k now frame payload) where
    abbrev pub stored : Task
    stored = persists (clients k).user_id (clients k).room_id s.content

    abbrev pub started : List Task
    started = stored ∷ publishes (event k payload) ∷ []

    pub frame_tasks :
        (on_frame json now (clients k).user_id (clients k).room_id frame).tasks ≡ started
    unfolding on_frame handle_message
    frame_tasks = rw (s.read, on_frame) (rw (s.written, on_frame) refl)

    -- the tasks with the new ones at the end, split at the one that publishes
    pub last_task :
        (tasks : List Task)
        → tasks ++ (on_frame json now (clients k).user_id (clients k).room_id frame).tasks
          ≡ (tasks ++ stored ∷ []) ++ publishes (event k payload) ∷ []
    last_task tasks =
        ap (λ l. tasks ++ l) frame_tasks
        ∙ sym (append_assoc tasks (stored ∷ []) (publishes (event k payload) ∷ []))

  module _ {S : Type 0} (users : ChatClient.Client S) (w : World S) where
    -- Whatever the chat service does, and even if it would refuse the message, a message that a
    -- connection that is open sends can be published to its room while the chat service has not been asked: the
    -- event is in the broker and the chat service is as it was. The broker has room for one more.
    pub published_unasked :
        (k : ℕ) (now : Time) (frame payload : String)
        → w.phase k ≡ serving
        → Says k now frame payload
        → length w.pubsub.ch < capacity
        → (w' : World S) × Reach json users clients w w'
          × (w'.chat ≡ w.chat)
          × (w'.pubsub.ch ≡ w.pubsub.ch ++ event k payload ∷ [])
    published_unasked k now frame payload alive s room =
        let e = last_task k now frame payload s w.tasks in
        (
          _,
          next (next here (reads k now frame alive)) (
              fans_out (w.tasks ++ stored k now frame payload s ∷ []) [] (event k payload)
                (record w.pubsub { ch = w.pubsub.ch ++ event k payload ∷ [] }) e (sends room)),
          refl,
          refl,
        )

    -- Of two messages that one open connection sends one after the other, the second can be published
    -- first. The broker has room for two more.
    pub overtaken :
        (k : ℕ) (now later : Time) (frame frame' payload payload' : String)
        → w.phase k ≡ serving
        → Says k now frame payload
        → Says k later frame' payload'
        → length w.pubsub.ch + 1 < capacity
        → (w' : World S) × (w'' : World S) × Reach json users clients w w'
          × (w'.tasks
              ≡ (w.tasks ++ (on_frame json now (clients k).user_id (clients k).room_id frame).tasks)
                ++ (on_frame json later (clients k).user_id (clients k).room_id frame').tasks)
          × Reach json users clients w' w''
          × (w''.pubsub.ch ≡ (w.pubsub.ch ++ event k payload' ∷ []) ++ event k payload ∷ [])
    overtaken k now later frame frame' payload payload' alive s s' room =
        let t =
          w.tasks ++ (on_frame json now (clients k).user_id (clients k).room_id frame).tasks in
        let st = stored k now frame payload s in
        let st' = stored k later frame' payload' s' in
        let e' = last_task k later frame' payload' s' t in
        let e =
          append-nil (t ++ st' ∷ [])
          ∙ ap (λ l. l ++ st' ∷ []) (last_task k now frame payload s w.tasks)
          ∙ append_assoc (w.tasks ++ st ∷ []) (publishes (event k payload) ∷ []) (st' ∷ []) in
        let p = record w.pubsub { ch = w.pubsub.ch ++ event k payload' ∷ [] } in
        let p' = record p { ch = p.ch ++ event k payload ∷ [] } in
        (
          _,
          _,
          next (next here (reads k now frame alive)) (reads k later frame' alive),
          refl,
          next
              (next here
                (fans_out (t ++ st' ∷ []) [] (event k payload') p e' (sends (omega arith))))
              (fans_out (w.tasks ++ st ∷ []) (st' ∷ []) (event k payload) p' e
                (sends (omega (arith, length-append w.pubsub.ch (event k payload' ∷ []))))),
          refl,
        )
