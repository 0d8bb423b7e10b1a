-- ===== src/Realtime/Hub.antt =====
-- services/realtime-service/internal/hub. A client is named by its address, a number; `clients` says what
-- its fields are, which never change. One step is what `Run` does for one value that its `select`
-- received, from whichever of the channels.
pub mod Open
pub mod Order
pub mod Delivery
pub mod Buffers
pub mod Tidy
pub mod Presence
pub mod Loop
use go_microservices_chat.Prelude.{
  ℕ, String, Bool, true, false, not, Option, none, some, List, [], ◌∷◌, ◌++◌, ltb, eqb, length,
  keep, if◌then◌else◌,
}
use go_microservices_chat.Go.Dict.{Dict}
use go_microservices_chat.Go.Dict
use go_microservices_chat.Go.Exec.{Result, ok, err, panic, Exec}
use go_microservices_chat.Go.Int.{ℤ, le_zero, to_nat}

-- the channel `send` of a client
pub record Channel : Type 0 where
  pub capacity : ℕ
  pub buffer : List String
  pub closed : Bool

pub record Client : Type 0 where
  pub user_id : String
  pub room_id : String

-- `make(chan []byte, sendBuf)` of `NewClient`
unfoldable pub new_channel : ℤ → Channel
new_channel send_buf = record {
  capacity = if le_zero send_buf then 32 else to_nat send_buf;
  buffer = [];
  closed = false;
}

pub record LocalEvent : Type 0 where
  pub room_id : String
  pub payload : String

pub record Hub : Type 0 where
  pub rooms : Dict (List ℕ)
  pub channels : ℕ → Channel

-- a value that `select` received
pub data Received : Type 0 where
  registers : ℕ → Received
  unregisters : ℕ → Received
  broadcasts : LocalEvent → Received

abbrev pub has : ℕ → List ℕ → Bool
has k [] = false
has k (j ∷ l) = let rest = has k l in if eqb j k then true else rest

abbrev pub without : ℕ → List ℕ → List ℕ
without k l = keep (λ j. not (eqb j k)) l

abbrev pub or_nil : Option (List ℕ) → List ℕ
or_nil none = []
or_nil (some l) = l

abbrev pub set : (ℕ → Channel) → ℕ → Channel → ℕ → Channel
set channels k ch j = if eqb j k then ch else channels j

-- `subs[c] = true`
abbrev pub add : ℕ → List ℕ → List ℕ
add k l = if has k l then l else k ∷ l

-- `select { case c.send <- payload: default: }`
unfoldable pub offer : String → Channel → Channel
offer payload ch =
    if ltb (length ch.buffer) ch.capacity
    then record ch { buffer = ch.buffer ++ payload ∷ [] }
    else ch

-- the loop of a broadcast; sending on a closed channel panics
unfoldable pub deliver : String → List ℕ → (ℕ → Channel) → Result String (ℕ → Channel)
unfolding offer
deliver payload [] channels = ok channels
deliver payload (k ∷ ks) channels =
    let rest = deliver payload ks (set channels k (offer payload (channels k))) in
    if (channels k).closed then panic else rest

abbrev pub stored : Hub → Result String (ℕ → Channel) → Result String (Unit {0}) × Hub
stored h (ok channels) = (ok tt, record h { channels = channels })
stored h (err e) = (err e, h)
stored h panic = (panic, h)

-- the room with the clients that are left, or no room
abbrev pub shrink : Dict (List ℕ) → String → List ℕ → Dict (List ℕ)
shrink rooms room_id [] = Dict.remove rooms room_id
shrink rooms room_id (k ∷ l) = Dict.put rooms room_id (k ∷ l)

module _ (clients : ℕ → Client) where
  -- closing a closed channel panics
  unfoldable pub drop_client : ℕ → List ℕ → Exec Hub String (Unit {0})
  drop_client k subs h =
      let room_id = (clients k).room_id in
      if (h.channels k).closed then (panic, h) else (
        ok tt,
        record {
          rooms = shrink h.rooms room_id (without k subs);
          channels = set h.channels k (record (h.channels k) { closed = true });
        },
      )

  unfoldable pub step : Received → Exec Hub String (Unit {0})
  unfolding drop_client deliver
  step (registers k) h =
      let room_id = (clients k).room_id in
      (
        ok tt,
        record h { rooms = Dict.put h.rooms room_id (add k (or_nil (Dict.get h.rooms room_id))) },
      )
  step (unregisters k) h = elim (Dict.get h.rooms (clients k).room_id) [
    | none ↦ (ok tt, h)
    | some subs ↦ if has k subs then drop_client k subs h else (ok tt, h)
  ]
  step (broadcasts ev) h =
      stored h (deliver ev.payload (or_nil (Dict.get h.rooms ev.room_id)) h.channels)
