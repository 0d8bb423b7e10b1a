-- ===== src/Realtime/Hub/Delivery.antt =====
-- Who gets a broadcast.
use mathlib.Core.Path.{subst}
use go_microservices_chat.Prelude.{
  ℕ, String, ◌≡◌, refl, sym, ◌∙◌, ◌≢◌, false, List, [], ◌∷◌, arith, eqb, All, All-weaken, inl, inr,
  Bool-cases, if◌then◌else◌,
}
use go_microservices_chat.Go.Dict
use go_microservices_chat.Go.Exec.{ok}
use go_microservices_chat.Go.Sort.{Pairwise}
use go_microservices_chat.Realtime.Hub.{
  Hub, Client, Channel, LocalEvent, broadcasts, step, deliver, offer, set, or_nil, has,
}
use go_microservices_chat.Realtime.Hub.Open.{IsValid, subscribers, offer_closed}

has-absent : (k : ℕ) (ks : List ℕ) → All (λ j. k ≢ j) ks → has k ks ≡ false
has-absent k [] h = refl
has-absent k (j ∷ ks) h = ground (arith, has-absent k ks)

-- each open channel of a list without repetition is offered the payload once, and no other channel
deliver-offer :
    (payload : String) (ks : List ℕ) (channels : ℕ → Channel)
    → All (λ k. (channels k).closed ≡ false) ks
    → Pairwise (λ j k. j ≢ k) ks
    → (channels' : ℕ → Channel) × (deliver payload ks channels ≡ ok channels')
      × ((j : ℕ) → channels' j ≡ (if has j ks then offer payload (channels j) else channels j))
unfolding deliver
deliver-offer payload [] channels open' apart = (channels, refl, λ j. refl)
deliver-offer payload (k ∷ ks) channels open' apart =
    let after = set channels k (offer payload (channels k)) in
    let (channels', e, each) =
      deliver-offer payload ks after
        (All-weaken (λ j o. offer_closed payload channels k j ∙ o) ks open'.1) apart.1 in
    (
      channels',
      ground (arith, e, open'.0),
      λ j. elim (Bool-cases (eqb j k)) [
        | inr other ↦ ground (arith, each j)
        | inl hit ↦
            let same : j ≡ k = ground arith in
            let absent = has-absent k ks apart.0 in
            subst
              (λ x.
                channels' x ≡ (if has x (k ∷ ks) then offer payload (channels x) else channels x))
              (sym same) (ground (arith, each k, absent))
      ],
    )

module _ (clients : ℕ → Client) where
  -- From a valid hub whose room lists nobody twice, a broadcast succeeds. Each client of the room is
  -- offered the payload, which goes behind what waits in its channel or is dropped if the channel is
  -- full, and every other channel and the table of rooms stay as they were.
  pub broadcast_lem :
      (h : Hub) (ev : LocalEvent)
      → IsValid clients h
      → Pairwise (λ j k. j ≢ k) (or_nil (Dict.get h.rooms ev.room_id))
      → (h' : Hub) × (step clients (broadcasts ev) h ≡ (ok tt, h'))
        × (h'.rooms ≡ h.rooms)
        × ((j : ℕ)
            → h'.channels j ≡ (
                if has j (or_nil (Dict.get h.rooms ev.room_id))
                then offer ev.payload (h.channels j)
                else h.channels j))
  unfolding step
  broadcast_lem h ev v apart =
      let subs = or_nil (Dict.get h.rooms ev.room_id) in
      let (channels', e, each) =
        deliver-offer ev.payload subs h.channels
          (All-weaken (λ k s. s.1) subs (subscribers clients h ev.room_id v)) apart in
      (record h { channels = channels' }, rw (e, step) refl, refl, each)
