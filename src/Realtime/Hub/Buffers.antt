-- ===== src/Realtime/Hub/Buffers.antt =====
-- What waits in the channels of the clients, before and after a step.
use mathlib.Core.Path.{subst}
use go_microservices_chat.Prelude.{
  ℕ, String, ◌≡◌, refl, sym, ap, ◌∙◌, true, List, [], ◌∷◌, arith, ltb, eqb, All, All-append,
  All-weaken, length, inl, inr, Bool-cases, Option-cases,
}
use go_microservices_chat.Go.Dict
use go_microservices_chat.Go.Exec.{ok}
use go_microservices_chat.Realtime.Hub.{
  Hub, Client, Channel, LocalEvent, registers, unregisters, broadcasts, step, deliver, offer, set,
  or_nil, drop_client, has,
}
use go_microservices_chat.Realtime.Hub.Open.{IsValid, subscribers, deliver_lem}

module _ (Good : ℕ → String → Type 0) where
  -- what holds of every payload in every channel
  abbrev pub Buffers : (ℕ → Channel) → Type 0
  Buffers channels = (j : ℕ) → All (Good j) (channels j).buffer

  offer-All :
      (payload : String) (k : ℕ) (ch : Channel)
      → Good k payload
      → All (Good k) ch.buffer
      → All (Good k) (offer payload ch).buffer
  unfolding offer
  offer-All payload k ch good all = elim (Bool-cases (ltb (length ch.buffer) ch.capacity)) [
    | inl e ↦ rw e (All-append (Good k) ch.buffer (payload ∷ []) all (good, tt))
    | inr e ↦ rw e all
  ]

  pub set-Buffers :
      (channels : ℕ → Channel) (k : ℕ) (ch : Channel)
      → All (Good k) ch.buffer
      → Buffers channels
      → Buffers (set channels k ch)
  set-Buffers channels k ch good all j = elim (Bool-cases (eqb j k)) [
    | inl e ↦
        let same : k ≡ j = ground arith in rw e (subst (λ x. All (Good x) ch.buffer) same good)
    | inr e ↦ rw e (all j)
  ]

  deliver-Buffers :
      (payload : String) (ks : List ℕ) (channels channels' : ℕ → Channel)
      → All (λ k. Good k payload) ks
      → Buffers channels
      → deliver payload ks channels ≡ ok channels'
      → Buffers channels'
  unfolding deliver
  deliver-Buffers payload [] channels channels' good all e =
      let same : channels ≡ channels' = ground arith in subst Buffers same all
  deliver-Buffers payload (k ∷ ks) channels channels' good all e =
      let after = set channels k (offer payload (channels k)) in
      deliver-Buffers payload ks after channels' good.1
        (set-Buffers channels k (offer payload (channels k))
          (offer-All payload k (channels k) good.0 (all k)) all)
        (ground arith)

  shut_buffer :
      (channels : ℕ → Channel) (k j : ℕ)
      → (set channels k (record (channels k) { closed = true }) j).buffer ≡ (channels j).buffer
  shut_buffer channels k j = elim (Bool-cases (eqb j k)) [
    | inl e ↦ let same : j ≡ k = ground arith in rw e (ap (λ x. (channels x).buffer) (sym same))
    | inr e ↦ rw e refl
  ]

  module _ (clients : ℕ → Client) (h h' : Hub) where
    pub registers-Buffers :
        (k : ℕ)
        → step clients (registers k) h ≡ (ok tt, h')
        → Buffers h.channels
        → Buffers h'.channels
    unfolding step
    registers-Buffers k e all = subst Buffers (ap (λ x. x.1.channels) e) all

    dropped_buffer :
        (k j : ℕ) (subs : List ℕ)
        → ((drop_client clients k subs h).1.channels j).buffer ≡ (h.channels j).buffer
    unfolding drop_client
    dropped_buffer k j subs = elim (Bool-cases (h.channels k).closed) [
      | inl e ↦ rw (e, drop_client) refl
      | inr e ↦ rw (e, drop_client) (shut_buffer h.channels k j)
    ]

    kept_buffers :
        (k j : ℕ) → ((step clients (unregisters k) h).1.channels j).buffer ≡ (h.channels j).buffer
    unfolding step
    kept_buffers k j = elim (Option-cases (Dict.get h.rooms (clients k).room_id)) [
      | inl e ↦ rw (e, step) refl
      | inr (subs, e) ↦ elim (Bool-cases (has k subs)) [
        | inr out ↦ rw (e, step) (rw (out, step) refl)
        | inl here ↦ rw (e, step) (rw (here, step) (dropped_buffer k j subs))
      ]
    ]

    pub unregisters-Buffers :
        (k : ℕ)
        → step clients (unregisters k) h ≡ (ok tt, h')
        → Buffers h.channels
        → Buffers h'.channels
    unregisters-Buffers k e all j =
        subst (All (Good j)) (sym (kept_buffers k j) ∙ ap (λ x. (x.1.channels j).buffer) e) (all j)

    -- the payload of a broadcast is good for every client of its room
    pub broadcasts-Buffers :
        (ev : LocalEvent)
        → IsValid clients h
        → ((k : ℕ) → (clients k).room_id ≡ ev.room_id → Good k ev.payload)
        → step clients (broadcasts ev) h ≡ (ok tt, h')
        → Buffers h.channels
        → Buffers h'.channels
    unfolding step
    broadcasts-Buffers ev v good e all =
        let subs = or_nil (Dict.get h.rooms ev.room_id) in
        let (channels', f, _) =
          deliver_lem ev.payload subs h.channels
            (All-weaken (λ k s. s.1) subs (subscribers clients h ev.room_id v)) in
        let same : channels' ≡ h'.channels = ground arith in
        subst Buffers same (
          deliver-Buffers ev.payload subs h.channels channels'
            (All-weaken (λ k s. good k s.0) subs (subscribers clients h ev.room_id v)) all f)
