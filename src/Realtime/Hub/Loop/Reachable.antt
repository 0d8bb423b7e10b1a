-- ===== src/Realtime/Hub/Loop/Reachable.antt =====
-- The states of the hub that calls of its methods, turns of `Run` and write loops lead to, in any order.
use go_microservices_chat.Prelude.{ℕ, suc, ◌≡◌, ◌≢◌, some, false, true, String, List, ◌∷◌}
use go_microservices_chat.Go.Int.{ℤ}
use go_microservices_chat.Realtime.Hub.{new_channel, Client, LocalEvent}
use go_microservices_chat.Realtime.Hub.Loop.Ordered.{
  IsOrdered, new_hub-IsOrdered, joins-IsOrdered, leaves-IsOrdered, arrives-IsOrdered,
  stop-IsOrdered, exit-IsOrdered, turn-IsOrdered,
}
use go_microservices_chat.Realtime.Hub.Loop.Reading.{with_buffer-IsOrdered}
use go_microservices_chat.Realtime.Hub.Loop.Valid.{IsSound, turn-ne-panics}
use go_microservices_chat.Realtime.Hub.Loop.{
  Loop, Case, handles, returns, panics, turn, register, unregister, local_broadcast, stop, new_hub,
  with_buffer,
}

module _ (clients : ℕ → Client) where
  -- one more client connects, which gets the address `n`, the connection of a client ends, an event
  -- arrives, `Stop` is called, `Run` handles a value or returns, or the write loop of a client
  -- takes a payload
  pub data Move (n : ℕ) (s : Loop) (n' : ℕ) (s' : Loop) : Type 0 where
    joins : n' ≡ suc n → register n s ≡ some s' → Move n s n' s'
    leaves : (k : ℕ) → n' ≡ n → unregister k s ≡ some s' → Move n s n' s'
    arrives : (ev : LocalEvent) → n' ≡ n → local_broadcast ev s ≡ some s' → Move n s n' s'
    ends : n' ≡ n → s' ≡ stop s → Move n s n' s'
    turns : (c : Case) → n' ≡ n → s.exited ≡ false → turn clients c s ≡ handles s' → Move n s n' s'
    exits :
        (c : Case)
        → n' ≡ n
        → s.exited ≡ false
        → turn clients c s ≡ returns
        → s' ≡ record s { exited = true }
        → Move n s n' s'
    takes :
        (k : ℕ) (b : String) (rest : List String)
        → n' ≡ n
        → (s.hub.channels k).buffer ≡ b ∷ rest
        → s' ≡ with_buffer s k rest
        → Move n s n' s'

  -- `bufs` are the sizes that `NewClient` is called with
  pub data Reach (bufs : ℕ → ℤ) : ℕ → Loop → Type 0 where
    here : Reach bufs 0 (new_hub (λ k. new_channel (bufs k)))
    next : {n n' : ℕ} {s s' : Loop} → Reach bufs n s → Move n s n' s' → Reach bufs n' s'

  Move-IsOrdered :
      {n n' : ℕ} {s s' : Loop} → Move n s n' s' → IsOrdered clients n s → IsOrdered clients n' s'
  Move-IsOrdered {n} {n'} {s} {s'} (joins at e) i = rw at (joins-IsOrdered clients n s s' e i)
  Move-IsOrdered {n} {n'} {s} {s'} (leaves k at e) i = rw at (leaves-IsOrdered clients n k s s' e i)
  Move-IsOrdered {n} {n'} {s} {s'} (arrives ev at e) i =
      rw at (arrives-IsOrdered clients n ev s s' e i)
  Move-IsOrdered {n} {n'} {s} {s'} (ends at e) i = rw at (rw e (stop-IsOrdered clients n s i))
  Move-IsOrdered {n} {n'} {s} {s'} (turns c at on e) i = rw at (turn-IsOrdered clients n s s' c e i)
  Move-IsOrdered {n} {n'} {s} {s'} (exits c at on e e') i =
      rw at (rw e' (exit-IsOrdered clients n s i))
  Move-IsOrdered {n} {n'} {s} {s'} (takes k b rest at e e') i =
      rw at (rw e' (with_buffer-IsOrdered clients n s k b rest e i))

  Reach-IsOrdered : (bufs : ℕ → ℤ) {n : ℕ} {s : Loop} → Reach bufs n s → IsOrdered clients n s
  Reach-IsOrdered bufs here = new_hub-IsOrdered clients bufs
  Reach-IsOrdered bufs (next r m) = Move-IsOrdered m (Reach-IsOrdered bufs r)

  -- In every state that is reached from a new hub by calls of its methods, by turns of `Run` and by
  -- write loops that take payloads, in any order, the hub is valid and lists nobody twice, the clients that wait to be registered are
  -- different and not in the hub, no channel holds more than it has room for, and no case that `Run` may
  -- take next panics. Each client is made by `NewClient` and registered once.
  pub Reach-IsSound :
      (bufs : ℕ → ℤ) {n : ℕ} {s : Loop}
      → Reach bufs n s
      → IsSound clients s × ((c : Case) → turn clients c s ≢ panics)
  Reach-IsSound bufs {n} {s} r =
      let i = Reach-IsOrdered bufs r in (i.sound, turn-ne-panics clients s i.sound)
