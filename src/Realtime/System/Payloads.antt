-- ===== src/Realtime/System/Payloads.antt =====
-- The payloads that are messages of a room, on their way through tasks, the broker and the hub.
use mathlib.Core.Path.{subst}
use mathlib.Core.Option.{some-injective}
use go_microservices_chat.Prelude.{
  ℕ, String, ◌≡◌, refl, sym, ap, Bool, some, List, [], ◌∷◌, ◌++◌, arith, eqb, All, All-append, inl,
  inr, Bool-cases, if◌then◌else◌, ◌==◌,
}
use go_microservices_chat.Go.Exec.{Result, ok, err, panic}
use go_microservices_chat.Go.Time.{Time}
use go_microservices_chat.Realtime.Handler.{
  Task, persists, publishes, tasks_for, react, by_type, handle_message, outbound_message,
}
use go_microservices_chat.Realtime.Hub.{
  Client, LocalEvent, Received, registers, unregisters, broadcasts, step,
}
use go_microservices_chat.Realtime.Hub.Buffers.{
  registers-Buffers, unregisters-Buffers, broadcasts-Buffers,
}
use go_microservices_chat.Realtime.Hub.Loop.{Loop, Case, handles, turn}
use go_microservices_chat.Realtime.Hub.Loop.Turns.{Took, turn-step}
use go_microservices_chat.Realtime.Hub.Open.{IsValid}
use go_microservices_chat.Realtime.Protocol.{Inbound, Json}
use go_microservices_chat.Realtime.Pubsub.{RoomEvent, InMem, Publish, sends, gives_up, receive}

module _ (json : Json) (clients : ℕ → Client) where
  -- the JSON of a message to the room, with the user id of a connection to that room as its sender
  abbrev pub From : String → String → Type 0
  From room_id payload =
      (k : ℕ) × (now : Time) × (content : String) × ((clients k).room_id ≡ room_id)
      × (json.marshal (outbound_message now (clients k).user_id room_id content) ≡ ok payload)

  abbrev pub TaskFrom : Task → Type 0
  TaskFrom (persists user_id room_id content) = Unit
  TaskFrom (publishes ev) = From ev.room_id ev.payload

  abbrev pub EventFrom : RoomEvent → Type 0
  EventFrom ev = From ev.room_id ev.payload

  abbrev pub QueuedFrom : LocalEvent → Type 0
  QueuedFrom ev = From ev.room_id ev.payload

  tasks_for-From :
      (k : ℕ) (now : Time) (content : String) (r : Result String String)
      → r ≡ json.marshal (outbound_message now (clients k).user_id (clients k).room_id content)
      → All TaskFrom (tasks_for (clients k).user_id (clients k).room_id content r)
  tasks_for-From k now content (ok payload) e = (tt, ((k, now, content, refl, sym e), tt))
  tasks_for-From k now content (err x) e = tt
  tasks_for-From k now content panic e = tt

  pub react-From :
      (k : ℕ) (now : Time) (r : Result String Inbound)
      → All TaskFrom (react json now (clients k).user_id (clients k).room_id r).tasks
  unfolding handle_message
  react-From k now (err e) = tt
  react-From k now panic = tt
  react-From k now (ok inb) = elim (Bool-cases (inb.type == "message")) [
    | inl e ↦
        rw (e, by_type)
          (tasks_for-From k now inb.content
            (json.marshal
              (outbound_message now (clients k).user_id (clients k).room_id inb.content))
            refl)
    | inr e ↦ rw (e, by_type) tt
  ]

  -- a list without one element in the middle
  pub All-remove :
      {A : Type 0} (P : A → Type 0) (front : List A) (x : A) (back : List A)
      → All P (front ++ x ∷ back)
      → P x × All P (front ++ back)
  All-remove P [] x back h = h
  All-remove P (y ∷ front) x back h =
      let (p, rest) = All-remove P front x back h.1 in (p, (h.0, rest))

  pub Publish-From :
      {ev : RoomEvent} {p p' : InMem}
      → EventFrom ev
      → Publish ev p p'
      → All EventFrom p.ch
      → All EventFrom p'.ch
  Publish-From {ev} {p} new (sends room) all = All-append EventFrom p.ch (ev ∷ []) all (new, tt)
  Publish-From new (gives_up closed) all = all

  pub receive-From :
      (ch : List RoomEvent) (closed : Bool) (ev : RoomEvent) (p' : InMem)
      → receive (record { ch = ch; closed = closed }) ≡ some (ev, p')
      → All EventFrom ch
      → EventFrom ev × All EventFrom p'.ch
  unfolding receive
  receive-From [] closed ev p' e all = absurd (ground arith)
  receive-From (ev' ∷ rest) closed ev p' e all =
      let same = some-injective (ev', record { ch = rest; closed = closed }) (ev, p') e in
      (subst EventFrom (ap (λ x. x.0) same) all.0, subst (λ x. All EventFrom x.1.ch) same all.1)

  pub shown_next :
      (shown : ℕ → List String) (k : ℕ) (b : String) (j : ℕ)
      → ((j : ℕ) → All (From (clients j).room_id) (shown j))
      → From (clients k).room_id b
      → All (From (clients j).room_id) (if eqb j k then shown j ++ b ∷ [] else shown j)
  shown_next shown k b j all new = elim (Bool-cases (eqb j k)) [
    | inl e ↦
        let same : k ≡ j = ground arith in
        rw e (
          All-append (From (clients j).room_id) (shown j) (b ∷ []) (all j)
            (subst (λ x. From (clients x).room_id b) same new, tt))
    | inr e ↦ rw e (all j)
  ]

  -- the channels in front of the hub and behind it, after a turn
  pub turn-From :
      (c : Case) (l l' : Loop)
      → IsValid clients l.hub
      → turn clients c l ≡ handles l'
      → All QueuedFrom l.broadcast
      → ((k : ℕ) → All (From (clients k).room_id) (l.hub.channels k).buffer)
      → All QueuedFrom l'.broadcast
        × ((k : ℕ) → All (From (clients k).room_id) (l'.hub.channels k).buffer)
  turn-From c l l' v at queue buffers = taken (turn-step clients c l l' at)
    where
      taken :
          (e : Received) × (step clients e l.hub ≡ (ok tt, l'.hub)) × Took l l' e
          → All QueuedFrom l'.broadcast
            × ((k : ℕ) → All (From (clients k).room_id) (l'.hub.channels k).buffer)
      taken (registers k, done, took) = (
        subst (All QueuedFrom) took.2 queue,
        registers-Buffers (λ j. From (clients j).room_id) clients l.hub l'.hub k done buffers,
      )
      taken (unregisters k, done, took) = (
        subst (All QueuedFrom) took.2 queue,
        unregisters-Buffers (λ j. From (clients j).room_id) clients l.hub l'.hub k done buffers,
      )
      taken (broadcasts ev, done, took) =
          let (this, others) = subst (All QueuedFrom) took.2 queue in
          (
            others,
            broadcasts-Buffers (λ j. From (clients j).room_id) clients l.hub l'.hub ev v
                (λ k same. subst (λ x. From x ev.payload) (sym same) this) done buffers,
          )
