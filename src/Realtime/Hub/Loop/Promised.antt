-- ===== src/Realtime/Hub/Loop/Promised.antt =====
-- The hub of services/realtime-service/internal/hub/hub.go, with its channels, its loop and the write loops
-- of its clients, against what it promises.
use mathlib.Core.List.{foldr, foldr-append}
use go_microservices_chat.Prelude.{
  ℕ, String, false, ◌≡◌, refl, sym, ap, ◌∙◌, Option, none, some, List, [], ◌∷◌, ◌++◌,
}
use go_microservices_chat.Go.Dict.Laws.{get-empty}
use go_microservices_chat.Go.Int.{ℤ}
use go_microservices_chat.Realtime.Hub.{Client, Received, new_channel, set}
use go_microservices_chat.Realtime.Hub.Presence.{
  Presence, presence, promised, step-promised, same_presence,
}
use go_microservices_chat.Realtime.Hub.Loop.{Loop, new_hub, stop, with_buffer}
use go_microservices_chat.Realtime.Hub.Loop.Reachable.{
  Move, joins, leaves, arrives, ends, turns, exits, takes, Reach, here, next, Reach-IsSound,
}
use go_microservices_chat.Realtime.Hub.Loop.Turns.{
  register_inv, unregister_inv, local_broadcast_inv, first_value, turn_inv,
}
use go_microservices_chat.Realtime.Hub.Loop.Valid.{IsSound}

-- what changes who is in which room or what the channels hold
pub data Change : Type 0 where
  receives : Received → Change
  writes : ℕ → Change

abbrev rest_of : List String → List String
rest_of [] = []
rest_of (b ∷ l) = l

-- what an event is for
abbrev pub happens : (ℕ → Client) → Change → Presence → Presence
happens clients (receives e) p = promised clients e p
happens clients (writes k) p = record p {
  channels = set p.channels k (record (p.channels k) { buffer = rest_of (p.channels k).buffer });
}

abbrev listed : Option Received → List Change
listed none = []
listed (some e) = receives e ∷ []

-- nobody is in any room, and the channels are new
abbrev pub nobody : (ℕ → ℤ) → Presence
nobody bufs = record { inside = λ r j. false; channels = λ k. new_channel (bufs k) }

module _ (clients : ℕ → Client) where
  abbrev pub event : {n n' : ℕ} {s s' : Loop} → Move clients n s n' s' → List Change
  event (joins at e) = []
  event (leaves k at e) = []
  event (arrives ev at e) = []
  event (ends at e) = []
  event (exits c at on e e') = []
  event {n} {n'} {s} {s'} (turns c at on e) = listed (first_value c s)
  event (takes k b rest at e e') = writes k ∷ []

  -- the events that led to a state, the last first
  abbrev pub events : (bufs : ℕ → ℤ) {n : ℕ} {s : Loop} → Reach clients bufs n s → List Change
  events bufs here = []
  events bufs (next r m) = event m ++ events bufs r

  abbrev pub all : List Change → Presence → Presence
  all es p = foldr (happens clients) p es

  start : (bufs : ℕ → ℤ) → presence (new_hub (λ k. new_channel (bufs k))).hub ≡ nobody bufs
  unfolding new_hub
  start bufs = same_presence _ _ (λ r j. rw (get-empty {V = List ℕ} r) refl) (λ j. refl)

  Move-promised :
      {n n' : ℕ} {s s' : Loop} (m : Move clients n s n' s')
      → IsSound clients s
      → presence s'.hub ≡ all (event m) (presence s.hub)
  unfolding stop
  Move-promised {n} {n'} {s} {s'} (joins at e) i =
      sym (ap (λ x. presence x.hub) (register_inv s s' n e).0)
  Move-promised {n} {n'} {s} {s'} (leaves k at e) i =
      sym (ap (λ x. presence x.hub) (unregister_inv s s' k e).0)
  Move-promised {n} {n'} {s} {s'} (arrives ev at e) i =
      sym (ap (λ x. presence x.hub) (local_broadcast_inv s s' ev e).0)
  Move-promised {n} {n'} {s} {s'} (ends at e) i = ap (λ x. presence x.hub) e
  Move-promised {n} {n'} {s} {s'} (turns c at on e) i =
      let (v, first, done, took) = turn_inv clients c s s' e in
      sym (ap (λ x. presence x.1) done)
      ∙ step-promised clients s.hub v i.valid i.tidy
      ∙ ap (λ o. all (listed o) (presence s.hub)) (sym first)
  Move-promised {n} {n'} {s} {s'} (exits c at on e e') i = ap (λ x. presence x.hub) e'
  Move-promised {n} {n'} {s} {s'} (takes k b rest at e e') i =
      ap (λ x. presence x.hub) e' ∙ ap (λ l. presence (with_buffer s k l).hub) (sym (ap rest_of e))

  -- In every state that is reached from a new hub by calls of its methods, by turns of `Run` and by write
  -- loops that take payloads, in any order, who is in which room and what the channels of the clients
  -- hold is what the values that `Run` has received and the write loops promise, one after the other.
  pub Reach-promised :
      (bufs : ℕ → ℤ) {n : ℕ} {s : Loop} (r : Reach clients bufs n s)
      → presence s.hub ≡ all (events bufs r) (nobody bufs)
  Reach-promised bufs here = start bufs
  Reach-promised bufs (next r m) =
      let (sound, _) = Reach-IsSound clients bufs r in
      Move-promised m sound
      ∙ ap (all (event m)) (Reach-promised bufs r)
      ∙ sym (foldr-append (happens clients) (nobody bufs) (event m) (events bufs r))
