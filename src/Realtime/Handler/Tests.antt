-- ===== src/Realtime/Handler/Tests.antt =====
-- The theorems on one connection.
use mathlib.Core.Path.{subst}
use go_microservices_chat.Prelude.{ℕ, String, ◌≡◌, refl, sym, ap, arith, true, false, List, [], ◌∷◌}
use go_microservices_chat.Go.Dict
use go_microservices_chat.Go.Dict.Laws.{get-empty}
use go_microservices_chat.Go.Exec.{ok}
use go_microservices_chat.Go.Int.{pos}
use go_microservices_chat.Go.Time.{Time}
use go_microservices_chat.Realtime.Handler.{Request}
use go_microservices_chat.Realtime.Handler.Writing.{write_loop, Ended, unregistered-returns}
use go_microservices_chat.Realtime.Hub.{Hub, Client, registers, unregisters, step, new_channel, has}
use go_microservices_chat.Realtime.Hub.Open.{IsValid, step-IsValid}
use go_microservices_chat.Realtime.Hub.Order.{room_of}
use go_microservices_chat.Realtime.Protocol.{Json}

-- every frame is a message, and its content is its JSON
abbrev bare : Json
bare = record {
  marshal = λ out. ok out.content;
  unmarshal = λ frame. ok (record { type = "message"; content = frame });
}

-- every header and every query parameter is `x`
abbrev request : Request
request = record { header = λ key. "x"; query = λ key. "x" }

abbrev frames : List (Time × String)
frames = (0, "hello") ∷ (1, "again") ∷ []

abbrev clients : ℕ → Client
clients k = record { user_id = "u1"; room_id = "r1" }

-- client 7 has joined, and two payloads wait in its channel
abbrev busy : Hub
busy = record {
  rooms = Dict.put Dict.empty "r1" (7 ∷ []);
  channels = λ k. record (new_channel (pos 2)) { buffer = "hello" ∷ "again" ∷ [] };
}

before : Hub
before = record busy { rooms = Dict.empty }

before-IsValid : IsValid clients before
unfolding before
before-IsValid = record {
  subscribed = λ room_id subs e. absurd (ground (arith, get-empty {V = List ℕ} room_id));
}

open' : (before.channels 7).closed ≡ false
unfolding before new_channel
open' = refl

busy-IsValid : IsValid clients busy
unfolding before step Dict.get Dict.empty
busy-IsValid =
    let (h', at, v) = step-IsValid clients before (registers 7) before-IsValid open' in
    subst (IsValid clients) (sym (ap (λ x. x.1) at)) v

joined : has 7 (room_of clients 7 busy) ≡ true
unfolding Dict.get Dict.put Dict.empty
joined = refl

unregistered-returns_example :
    (h' : Hub) × (step clients (unregisters 7) busy ≡ (ok tt, h'))
    × Ended
        (λ l. false)
        (λ b. true)
        true
        (busy.channels 7).buffer
        (write_loop (λ l. false) (λ b. true) (h'.channels 7))
unregistered-returns_example =
    unregistered-returns (λ l. false) (λ b. true) clients busy 7 busy-IsValid joined
