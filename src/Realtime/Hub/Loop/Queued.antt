-- ===== src/Realtime/Hub/Loop/Queued.antt =====
-- The events that wait in front of the hub reach the channels of the clients in their order.
use mathlib.Core.Path.{subst}
use mathlib.Core.List.{append-nil}
use go_microservices_chat.Prelude.{
  ℕ, suc, ◌+◌, String, ◌≡◌, ◌≢◌, ◌⊎◌, refl, sym, ap, ◌∙◌, Bool, false, List, [], ◌∷◌, ◌++◌, map,
  arith, length, take, take_of_length-le, keep, inl, inr, Bool-cases, if◌then◌else◌,
}
use go_microservices_chat.Go.Dict
use go_microservices_chat.Go.Exec.{ok}
use go_microservices_chat.Realtime.Hub.{
  Hub, Client, LocalEvent, Received, registers, unregisters, broadcasts, step, offer, or_nil, has,
}
use go_microservices_chat.Realtime.Hub.Tidy.{Holds}
use go_microservices_chat.Realtime.Hub.Loop.Offers.{offer_capacity, take-offer}
use go_microservices_chat.Realtime.Hub.Delivery.{broadcast_lem}
use go_microservices_chat.Realtime.Hub.Loop.Rest.{Picks, Turn-cases, nothing_waits}
use go_microservices_chat.Realtime.Hub.Loop.Reachable.{Reach, Reach-IsSound}
use go_microservices_chat.Go.Int.{ℤ}
use go_microservices_chat.Realtime.Hub.Loop.Turns.{Took, turn-step}
use go_microservices_chat.Realtime.Hub.Loop.Valid.{IsSound, Goes, turn-Goes, turn-ne-panics}
use go_microservices_chat.Realtime.Hub.Loop.{
  Loop, Case, waits, handles, turn, run, blocked, pending,
}

-- whether the hub has the client in the room of the event
abbrev pub meant_for : Hub → ℕ → LocalEvent → Bool
meant_for h j ev = has j (or_nil (Dict.get h.rooms ev.room_id))

-- the payloads of the events that are meant for a client
abbrev pub payloads_for : Hub → ℕ → List LocalEvent → List String
payloads_for h j events = map (λ ev. ev.payload) (keep (meant_for h j) events)

module _ (clients : ℕ → Client) where
  -- only events wait
  record OnlyEvents (queue : List LocalEvent) (s : Loop) : Type 0 where
    sound : IsSound clients s
    no_register : s.register ≡ []
    no_unregister : s.unregister ≡ []
    events : s.broadcast ≡ queue
    running : s.stopped ≡ false

  -- `Run` can only take the first event
  takes_event :
      (c : Case) (ev : LocalEvent) (rest : List LocalEvent) (s s' : Loop)
      → OnlyEvents (ev ∷ rest) s
      → turn clients c s ≡ handles s'
      → (step clients (broadcasts ev) s.hub ≡ (ok tt, s'.hub))
        × (s'.register ≡ [])
        × (s'.unregister ≡ [])
        × (s'.broadcast ≡ rest)
  takes_event c ev rest s s' i at = taken (turn-step clients c s s' at)
    where
      taken :
          (e : Received) × (step clients e s.hub ≡ (ok tt, s'.hub)) × Took s s' e
          → (step clients (broadcasts ev) s.hub ≡ (ok tt, s'.hub))
            × (s'.register ≡ [])
            × (s'.unregister ≡ [])
            × (s'.broadcast ≡ rest)
      taken (registers k, done, took) = absurd (ground (arith, took.0, i.no_register))
      taken (unregisters k, done, took) = absurd (ground (arith, took.1, i.no_unregister))
      taken (broadcasts ev', done, took) =
          let same : ev' ≡ ev = ground (arith, took.2, i.events) in
          (
            subst (λ x. step clients (broadcasts x) s.hub ≡ (ok tt, s'.hub)) same done,
            sym took.0 ∙ i.no_register,
            sym took.1 ∙ i.no_unregister,
            ground (arith, took.2, i.events),
          )

  -- a turn handles a value if there is one, and else `Run` waits
  next_turn :
      (choose : Loop → Case)
      → Picks clients choose
      → (queue : List LocalEvent) (s : Loop) → OnlyEvents queue s
      → ((turn clients (choose s) s ≡ waits) × (length queue ≡ 0))
        ⊎ ((s' : Loop) × (turn clients (choose s) s ≡ handles s'))
  next_turn choose picks queue s i =
      let goes = turn-Goes clients (choose s) s i.sound in
      elim (Turn-cases (turn clients (choose s) s)) [
        | inl e ↦
            let (done, _) = nothing_waits clients s (picks s e) in
            inl (e, omega (arith, done, ap length i.events))
        | inr (inl handled) ↦ inr handled
        | inr (inr (inl e)) ↦
            let shut = subst (Goes clients s) e goes in absurd (ground (arith, i.running))
        | inr (inr (inr e)) ↦ absurd (turn-ne-panics clients s i.sound (choose s) e)
      ]

  nothing_taken : (c : Case) (s s' : Loop) → OnlyEvents [] s → turn clients c s ≢ handles s'
  nothing_taken c s s' i at = taken (turn-step clients c s s' at)
    where
      taken : ¬ ((e : Received) × (step clients e s.hub ≡ (ok tt, s'.hub)) × Took s s' e)
      taken (registers k, done, took) = ground (arith, took.0, i.no_register)
      taken (unregisters k, done, took) = ground (arith, took.1, i.no_unregister)
      taken (broadcasts ev, done, took) = ground (arith, took.2, i.events)

  -- the hub after the first event: who is where, and what is in the channels
  first_event :
      (c : Case) (ev : LocalEvent) (rest : List LocalEvent) (s s' : Loop)
      → OnlyEvents (ev ∷ rest) s
      → turn clients c s ≡ handles s'
      → OnlyEvents rest s'
        × (s'.hub.rooms ≡ s.hub.rooms)
        × ((j : ℕ)
            → s'.hub.channels j ≡ (
                if meant_for s.hub j ev
                then offer ev.payload (s.hub.channels j)
                else s.hub.channels j))
  first_event c ev rest s s' i at =
      let (done, no_register, no_unregister, events) = takes_event c ev rest s s' i at in
      let (h, done', rooms, each) =
        broadcast_lem clients s.hub ev i.sound.valid (i.sound.tidy.apart ev.room_id) in
      let same : h ≡ s'.hub = ap (λ x. x.1) (sym done' ∙ done) in
      let each' =
        subst
          (λ x.
            (j : ℕ)
            → x.channels j ≡ (
                if meant_for s.hub j ev
                then offer ev.payload (s.hub.channels j)
                else s.hub.channels j))
          same each in
      let rooms' = subst (λ x. x.rooms ≡ s.hub.rooms) same rooms in
      let (sound, _, stopped) = subst (Goes clients s) at (turn-Goes clients c s i.sound) in
      (
        record {
          sound = sound;
          no_register = no_register;
          no_unregister = no_unregister;
          events = events;
          running = stopped ∙ i.running;
        },
        rooms',
        each',
      )

  -- what one event and the later ones leave in a channel
  buffer_after :
      (h h' : Hub) (ev : LocalEvent) (rest : List LocalEvent) (j : ℕ) (buffer : List String)
      → Holds (h.channels j)
      → h'.rooms ≡ h.rooms
      → h'.channels j ≡ (if meant_for h j ev then offer ev.payload (h.channels j) else h.channels j)
      → buffer ≡ take (h'.channels j).capacity ((h'.channels j).buffer ++ payloads_for h' j rest)
      → buffer
        ≡ take (h.channels j).capacity ((h.channels j).buffer ++ payloads_for h j (ev ∷ rest))
  buffer_after h h' ev rest j buffer holds rooms at e =
      let later = payloads_for h j rest in
      let same : payloads_for h' j rest ≡ later =
        ap (λ r. map (λ ev. ev.payload) (keep (λ ev. has j (or_nil (Dict.get r ev.room_id))) rest))
          rooms in
      let e' =
        subst (λ ch. buffer ≡ take ch.capacity (ch.buffer ++ later)) at
          (subst (λ l. buffer ≡ take (h'.channels j).capacity ((h'.channels j).buffer ++ l)) same
            e) in
      elim (Bool-cases (meant_for h j ev)) [
        | inl m ↦
            let ch = h.channels j in
            let offered : buffer
                ≡ take (offer ev.payload ch).capacity ((offer ev.payload ch).buffer ++ later) =
              rw m at e' in
            rw m (
              offered
              ∙ ap (λ n. take n ((offer ev.payload ch).buffer ++ later))
                  (offer_capacity ev.payload ch)
              ∙ take-offer ev.payload ch later holds)
        | inr m ↦ let kept' = rw m at e' in rw m kept'
      ]

  delivers :
      (choose : Loop → Case)
      → Picks clients choose
      → (queue : List LocalEvent) (s : Loop) → OnlyEvents queue s
      → (s' : Loop) × (run clients (suc (length queue)) choose s ≡ blocked s')
        × (s'.hub.rooms ≡ s.hub.rooms)
        × ((j : ℕ)
            → (s'.hub.channels j).buffer
              ≡ take
                  (s.hub.channels j).capacity
                  ((s.hub.channels j).buffer ++ payloads_for s.hub j queue))
  unfolding run
  delivers choose picks [] s i = elim (next_turn choose picks [] s i) [
    | inl (e, _) ↦ (
      s,
      rw (e, run) refl,
      refl,
      λ j. sym (
          ap (take (s.hub.channels j).capacity) (append-nil (s.hub.channels j).buffer)
          ∙ take_of_length-le (s.hub.channels j).capacity (s.hub.channels j).buffer
              (i.sound.tidy.holds j)),
    )
    | inr (s', e) ↦ absurd (nothing_taken (choose s) s s' i e)
  ]
  delivers choose picks (ev ∷ rest) s i = elim (next_turn choose picks (ev ∷ rest) s i) [
    | inl (_, empty) ↦ absurd (omega (arith, empty))
    | inr (s', e) ↦
        let (i', rooms, each) = first_event (choose s) ev rest s s' i e in
        let (s'', at, rooms', buffers) = delivers choose picks rest s' i' in
        (
          s'',
          rw (e, run) at,
          rooms' ∙ rooms,
          λ j.
              buffer_after s.hub s'.hub ev rest j (s''.hub.channels j).buffer (i.sound.tidy.holds j)
                rooms (each j) (buffers j),
        )
  ]

  -- In every state of the hub that calls and turns lead to, with only events waiting in front of it and
  -- `Stop` not called, `Run` hands all of them over and then waits. Afterwards the channel of each
  -- client holds what it held, and behind that the payloads of the events of rooms that the client is
  -- in, in the order of the events, as many as there is room for. `select` waits only while no case is
  -- ready.
  pub run-delivers :
      (choose : Loop → Case) (bufs : ℕ → ℤ) {n : ℕ} {s : Loop}
      → Picks clients choose
      → Reach clients bufs n s
      → s.register ≡ []
      → s.unregister ≡ []
      → s.stopped ≡ false
      → (s' : Loop) × (run clients (pending s + 1) choose s ≡ blocked s')
        × (s'.hub.rooms ≡ s.hub.rooms)
        × ((j : ℕ)
            → (s'.hub.channels j).buffer
              ≡ take
                  (s.hub.channels j).capacity
                  ((s.hub.channels j).buffer ++ payloads_for s.hub j s.broadcast))
  run-delivers choose bufs {n} {s} picks r no_register no_unregister running =
      let fuel : pending s + 1 ≡ suc (length s.broadcast) =
        omega (arith, ap length no_register, ap length no_unregister) in
      rw fuel (
        delivers choose picks s.broadcast s (record {
          sound = (Reach-IsSound clients bufs r).0;
          no_register = no_register;
          no_unregister = no_unregister;
          events = refl;
          running = running;
        }))
