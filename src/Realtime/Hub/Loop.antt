-- ===== src/Realtime/Hub/Loop.antt =====
-- services/realtime-service/internal/hub/hub.go: the channels in front of the hub and its methods. The
-- table of rooms and the channels of the clients are the hub of the module Hub. A `select` takes any
-- case that is ready, so the case is an argument.
pub mod Fresh
pub mod Valid
pub mod Turns
pub mod Ordered
pub mod Reachable
pub mod Rest
pub mod Offers
pub mod Queued
pub mod Reading
pub mod Promised
mod Tests
use go_microservices_chat.Prelude.{
  ℕ, zero, suc, ◌+◌, String, Bool, true, false, Option, none, some, List, [], ◌∷◌, ◌++◌, ltb,
  length, if◌then◌else◌,
}
use go_microservices_chat.Go.Dict
use go_microservices_chat.Go.Exec.{Result, ok, err, panic}
use go_microservices_chat.Realtime.Hub.{
  Hub, Client, Channel, LocalEvent, registers, unregisters, broadcasts, step, set,
}

-- `stopped` says whether the channel `stop` is closed, `exited` whether `Run` has returned
pub record Loop : Type 0 where
  pub register : List ℕ
  pub unregister : List ℕ
  pub broadcast : List LocalEvent
  pub stopped : Bool
  pub exited : Bool
  pub hub : Hub

-- the capacities that `NewHub` gives to the three channels
abbrev pub register_capacity : ℕ
register_capacity = 16

abbrev pub unregister_capacity : ℕ
unregister_capacity = 16

abbrev pub broadcast_capacity : ℕ
broadcast_capacity = 256

-- the channels of the clients are made by `NewClient`, before they are registered
unfoldable pub new_hub : (ℕ → Channel) → Loop
new_hub channels = record {
  register = [];
  unregister = [];
  broadcast = [];
  stopped = false;
  exited = false;
  hub = record { rooms = Dict.empty; channels = channels };
}

-- a send on a channel with buffer: `none` while the channel is full and the caller waits
abbrev pub send : {A : Type 0} → ℕ → List A → A → Option (List A)
send capacity queue a = if ltb (length queue) capacity then some (queue ++ a ∷ []) else none

abbrev with_register : Loop → Option (List ℕ) → Option Loop
with_register s none = none
with_register s (some queue) = some (record s { register = queue })

abbrev with_unregister : Loop → Option (List ℕ) → Option Loop
with_unregister s none = none
with_unregister s (some queue) = some (record s { unregister = queue })

abbrev with_broadcast : Loop → Option (List LocalEvent) → Option Loop
with_broadcast s none = none
with_broadcast s (some queue) = some (record s { broadcast = queue })

unfoldable pub register : ℕ → Loop → Option Loop
register k s = with_register s (send register_capacity s.register k)

unfoldable pub unregister : ℕ → Loop → Option Loop
unregister k s = with_unregister s (send unregister_capacity s.unregister k)

unfoldable pub local_broadcast : LocalEvent → Loop → Option Loop
local_broadcast ev s = with_broadcast s (send broadcast_capacity s.broadcast ev)

-- `closeOnce` makes a second call do nothing
unfoldable pub stop : Loop → Loop
stop s = record s { stopped = true }

-- the four cases of the `select` of `Run`
pub data Case : Type 0 where
  from_register from_unregister from_broadcast from_stop : Case

-- what a case comes to: it is not ready, the value is handled, `Run` returns, or it panics
pub data Turn : Type 0 where
  waits : Turn
  handles : Loop → Turn
  returns : Turn
  panics : Turn

-- a step of the hub returns no error
abbrev pub handled : Loop → Result String (Unit {0}) × Hub → Turn
handled s (ok _, h) = handles (record s { hub = h })
handled s (err e, h) = panics
handled s (panic, h) = panics

-- how `Run` goes: it waits in its `select`, it has returned, it has panicked, or it goes on
pub data Ran : Type 0 where
  blocked : Loop → Ran
  returned : Loop → Ran
  panicked : Ran
  out_of_fuel : Ran

module _ (clients : ℕ → Client) where
  unfoldable pub turn : Case → Loop → Turn
  turn from_register s = elim s.register [
    | [] ↦ waits
    | k ∷ rest ↦ handled (record s { register = rest }) (step clients (registers k) s.hub)
  ]
  turn from_unregister s = elim s.unregister [
    | [] ↦ waits
    | k ∷ rest ↦ handled (record s { unregister = rest }) (step clients (unregisters k) s.hub)
  ]
  turn from_broadcast s = elim s.broadcast [
    | [] ↦ waits
    | ev ∷ rest ↦ handled (record s { broadcast = rest }) (step clients (broadcasts ev) s.hub)
  ]
  turn from_stop s = if s.stopped then returns else waits

  -- `Run`, while nothing else is sent: `choose` is the case that each `select` takes
  unfoldable pub run : ℕ → (Loop → Case) → Loop → Ran
  unfolding turn
  run zero choose s = out_of_fuel
  run (suc fuel) choose s = elim (turn (choose s) s) [
    | waits ↦ blocked s
    | handles s' ↦ run fuel choose s'
    | returns ↦ returned s
    | panics ↦ panicked
  ]

-- what is in the channel of a client when its first payload has been taken out
abbrev pub with_buffer : Loop → ℕ → List String → Loop
with_buffer s k rest = record s {
  hub = record s.hub {
    channels = set s.hub.channels k (record (s.hub.channels k) { buffer = rest });
  };
}

-- the number of values that wait
abbrev pub pending : Loop → ℕ
pending s = length s.register + length s.unregister + length s.broadcast
