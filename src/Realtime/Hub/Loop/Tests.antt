-- ===== src/Realtime/Hub/Loop/Tests.antt =====
-- The theorems on the channels of the hub, at a hub with one client and room for two payloads.
use go_microservices_chat.Prelude.{
  ℕ, ◌+◌, String, ◌≡◌, ◌≢◌, ◌⊎◌, refl, if◌then◌else◌, true, List, [], ◌∷◌,
}
use go_microservices_chat.Go.Int.{ℤ, pos}
use go_microservices_chat.Realtime.Hub.{
  Client, LocalEvent, new_channel, registers, unregisters, broadcasts, step,
}
use go_microservices_chat.Realtime.Hub.Presence.{presence}
use go_microservices_chat.Realtime.Hub.Loop.Promised.{all, events, nobody, Reach-promised}
use go_microservices_chat.Realtime.Hub.Loop.Reachable.{
  Reach, here, next, joins, arrives, turns, Reach-IsSound,
}
use go_microservices_chat.Realtime.Hub.Loop.Rest.{Picks, handled-ne-waits, run-rests}
use go_microservices_chat.Realtime.Hub.Loop.Valid.{IsSound}
use go_microservices_chat.Realtime.Hub.Loop.{
  Loop, Case, from_register, from_unregister, from_broadcast, from_stop, waits, panics, turn, run,
  blocked, returned, pending, new_hub, register, local_broadcast,
}

abbrev clients : ℕ → Client
clients k = record { user_id = "u1"; room_id = "r1" }

-- every channel has room for two payloads
abbrev bufs : ℕ → ℤ
bufs k = pos 2

abbrev event : String → LocalEvent
event payload = record { room_id = "r1"; payload = payload }

-- the first case that is ready
abbrev first : Loop → Case
first s = elim s.register [
  | k ∷ _ ↦ from_register
  | [] ↦ elim s.unregister [
    | k ∷ _ ↦ from_unregister
    | [] ↦ elim s.broadcast [ ev ∷ _ ↦ from_broadcast | [] ↦ from_stop ]
  ]
]

abbrev with_queues : Loop → List ℕ → List ℕ → List LocalEvent → Loop
with_queues s joining leaving events = record s {
  register = joining;
  unregister = leaving;
  broadcast = events;
}

picks :
    (s : Loop) (joining leaving : List ℕ) (events : List LocalEvent)
    → turn clients
        (first (with_queues s joining leaving events))
        (with_queues s joining leaving events)
      ≡ waits
    → (c : Case) → turn clients c (with_queues s joining leaving events) ≡ waits
unfolding turn
picks s (k ∷ joining) leaving events e c =
    absurd
      (handled-ne-waits (with_queues s joining leaving events) (step clients (registers k) s.hub) e)
picks s [] (k ∷ leaving) events e c =
    absurd
      (handled-ne-waits (with_queues s [] leaving events) (step clients (unregisters k) s.hub) e)
picks s [] [] (ev ∷ events) e c =
    absurd (handled-ne-waits (with_queues s [] [] events) (step clients (broadcasts ev) s.hub) e)
picks s [] [] [] e from_register = refl
picks s [] [] [] e from_unregister = refl
picks s [] [] [] e from_broadcast = refl
picks s [] [] [] e from_stop = e

first-Picks : Picks clients first
first-Picks s = picks s s.register s.unregister s.broadcast

-- a client has connected, and `Run` has taken its registration
joined : (s : Loop) × Reach clients bufs 1 s
unfolding register turn new_hub step
joined =
    let one : (s : Loop) × Reach clients bufs 1 s = (
      record (new_hub (λ k. new_channel (bufs k))) { register = 0 ∷ [] },
      next here (joins refl refl),
    ) in
    (_, next one.1 (turns from_register refl refl refl))

Reach-IsSound_example : IsSound clients joined.0 × ((c : Case) → turn clients c joined.0 ≢ panics)
Reach-IsSound_example = Reach-IsSound clients bufs joined.1

-- three events wait for it
abbrev busy : Loop
busy = record joined.0 { broadcast = event "a" ∷ event "b" ∷ event "c" ∷ [] }

busy-Reach : Reach clients bufs 1 busy
unfolding local_broadcast joined
busy-Reach =
    let one : Reach clients bufs 1 (record joined.0 { broadcast = event "a" ∷ [] }) =
      next joined.1 (arrives (event "a") refl refl) in
    let two : Reach clients bufs 1 (record joined.0 { broadcast = event "a" ∷ event "b" ∷ [] }) =
      next one (arrives (event "b") refl refl) in
    next two (arrives (event "c") refl refl)

run-rests_example :
    (s' : Loop) × (run clients (pending busy + 1) first busy
      ≡ (if busy.stopped then returned s' else blocked s'))
    × IsSound clients s'
    × ((busy.stopped ≡ true) ⊎ (pending s' ≡ 0))
run-rests_example =
    run-rests clients first busy first-Picks (Reach-IsSound clients bufs busy-Reach).0

Reach-promised_example :
    presence busy.hub ≡ all clients (events clients bufs busy-Reach) (nobody bufs)
Reach-promised_example = Reach-promised clients bufs busy-Reach
