-- ===== src/Realtime/Hub/Order.antt =====
-- Joining and leaving the hub go through two channels, so `Run` may take them in either order.
use go_microservices_chat.Prelude.{
  ℕ, String, ◌≡◌, refl, true, false, List, [], ◌∷◌, arith, inl, inr, Option-cases,
}
use go_microservices_chat.Go.Dict.{Dict}
use go_microservices_chat.Go.Dict
use go_microservices_chat.Go.Dict.Laws.{get-put_self, get-remove_self}
use go_microservices_chat.Go.Exec.{ok, ◌>>=◌}
use go_microservices_chat.Realtime.Hub.{
  Hub, Client, Channel, registers, unregisters, step, drop_client, set, without, or_nil, has,
  shrink,
}

module _ (clients : ℕ → Client) where
  -- the clients of the room of `k`
  abbrev pub room_of : ℕ → Hub → List ℕ
  room_of k h = or_nil (Dict.get h.rooms (clients k).room_id)

  has-without : (k : ℕ) (l : List ℕ) → has k (without k l) ≡ false
  has-without k [] = refl
  has-without k (j ∷ l) = ground (arith, has-without k l)

  has-shrink :
      (rooms : Dict (List ℕ)) (room_id : String) (k : ℕ) (l : List ℕ)
      → has k l ≡ false
      → has k (or_nil (Dict.get (shrink rooms room_id l) room_id)) ≡ false
  has-shrink rooms room_id k [] h = ground (arith, get-remove_self rooms room_id)
  has-shrink rooms room_id k (j ∷ l) h = rw (get-put_self rooms room_id (j ∷ l)) h

  -- For a connection whose channel is open and that is not in the hub, the order decides. If `Run` takes
  -- its registration first, the client is gone at the end and its channel is closed. If it takes the
  -- end of the connection first, the client stays in its room and its channel stays open.
  pub registration_order :
      (h : Hub) (k : ℕ)
      → has k (room_of k h) ≡ false
      → (h.channels k).closed ≡ false
      → ((h' : Hub) × ((step clients (registers k) >>= λ _. step clients (unregisters k)) h
            ≡ (ok tt, h'))
          × (has k (room_of k h') ≡ false)
          × ((h'.channels k).closed ≡ true))
        × ((h' : Hub) × ((step clients (unregisters k) >>= λ _. step clients (registers k)) h
              ≡ (ok tt, h'))
            × (has k (room_of k h') ≡ true)
            × ((h'.channels k).closed ≡ false))
  unfolding step drop_client ◌>>=◌
  registration_order h k absent opened =
      let room_id = (clients k).room_id in
      let l = room_of k h in
      let rooms' = Dict.put h.rooms room_id (k ∷ l) in
      let shut : Channel = record (h.channels k) { closed = true } in
      (
        (
          record {
            rooms = shrink rooms' room_id (without k (k ∷ l));
            channels = set h.channels k shut;
          },
          ground (arith, get-put_self h.rooms room_id (k ∷ l)),
          has-shrink rooms' room_id k (without k (k ∷ l)) (has-without k (k ∷ l)),
          ground arith,
        ),
        (
          record h { rooms = rooms' },
          elim (Option-cases (Dict.get h.rooms room_id)) [
            | inl e ↦ ground arith
            | inr (subs, e) ↦ ground arith
          ],
          ground (arith, get-put_self h.rooms room_id (k ∷ l)),
          opened,
        ),
      )
