-- ===== src/Realtime/Hub/Loop/Turns.antt =====
-- What the methods of the hub and the turns of `Run` do with the values that wait.
use mathlib.Core.Option.{some-injective}
use go_microservices_chat.Prelude.{
  ℕ, ◌≤◌, String, ◌≡◌, ◌≢◌, refl, sym, ap, ◌∙◌, Option, none, some, List, [], ◌∷◌, ◌++◌, arith,
  length, length-append, ltb, All, All-append, inl, inr, tests, Bool-cases, List-cases,
  Option-cases,
}
use go_microservices_chat.Go.Exec.{Result, ok, err, panic}
use go_microservices_chat.Go.Sort.{Pairwise}
use go_microservices_chat.Realtime.Hub.{
  Hub, Client, LocalEvent, Received, registers, unregisters, broadcasts, step,
}
use go_microservices_chat.Realtime.Hub.Loop.{
  Loop, Case, from_register, from_unregister, from_broadcast, from_stop, waits, returns, handles,
  handled, turn, register, unregister, local_broadcast, send, register_capacity,
  unregister_capacity, broadcast_capacity,
}

-- what a send on a channel that is not full leaves
fits :
    {A : Type 0} (capacity : ℕ) (queue queue' : List A) (a : A)
    → send capacity queue a ≡ some queue'
    → (queue' ≡ queue ++ a ∷ []) × (length (queue ++ a ∷ []) ≤ capacity)
fits capacity queue queue' a e = elim (Bool-cases (ltb (length queue) capacity)) [
  | inl room ↦ (
    some-injective queue' (queue ++ a ∷ []) (ground arith),
    omega (arith, tests, length-append queue (a ∷ []), room),
  )
  | inr full ↦ absurd (ground arith)
]

pub Pairwise-snoc :
    (queue : List ℕ) (k : ℕ)
    → Pairwise (λ j k. j ≢ k) queue
    → All (λ j. j ≢ k) queue
    → Pairwise (λ j k. j ≢ k) (queue ++ k ∷ [])
Pairwise-snoc [] k p all = (tt, tt)
Pairwise-snoc (j ∷ queue) k p all =
    (All-append (λ i. j ≢ i) queue (k ∷ []) p.0 (all.0, tt), Pairwise-snoc queue k p.1 all.1)

-- the value that a turn has taken from its channel
abbrev pub Took : Loop → Loop → Received → Type 0
Took s s' (registers k) =
    (s.register ≡ k ∷ s'.register) × (s.unregister ≡ s'.unregister) × (s.broadcast ≡ s'.broadcast)
Took s s' (unregisters k) =
    (s.register ≡ s'.register) × (s.unregister ≡ k ∷ s'.unregister) × (s.broadcast ≡ s'.broadcast)
Took s s' (broadcasts ev) =
    (s.register ≡ s'.register) × (s.unregister ≡ s'.unregister) × (s.broadcast ≡ ev ∷ s'.broadcast)

pub handled_inv :
    (s s' : Loop) (r : Result String (Unit {0}) × Hub)
    → handled s r ≡ handles s'
    → (r ≡ (ok tt, s'.hub)) × (s' ≡ record s { hub = s'.hub })
handled_inv s s' (ok _, h) e =
    let same : record s { hub = h } ≡ s' = ground arith in
    (ap (λ x. (ok tt, x.hub)) same, sym same ∙ ap (λ x. record s { hub = x.hub }) same)
handled_inv s s' (err x, h) e = absurd (ground arith)
handled_inv s s' (panic, h) e = absurd (ground arith)

waiting : (s : Loop) → waits ≢ handles s
waiting s e = ground arith

returning : (s : Loop) → returns ≢ handles s
returning s e = ground arith

pub register_inv :
    (s s' : Loop) (k : ℕ)
    → register k s ≡ some s'
    → (record s { register = s.register ++ k ∷ [] } ≡ s')
      × (length (s.register ++ k ∷ []) ≤ register_capacity)
unfolding register
register_inv s s' k e = elim (Option-cases (send register_capacity s.register k)) [
  | inl full ↦ absurd (ground arith)
  | inr (queue, sent) ↦
      let (at, fit) = fits register_capacity s.register queue k sent in
      let same : record s { register = queue } ≡ s' = some-injective _ s' (ground arith) in
      (ap (λ x. record s { register = x }) (sym at) ∙ same, fit)
]

pub unregister_inv :
    (s s' : Loop) (k : ℕ)
    → unregister k s ≡ some s'
    → (record s { unregister = s.unregister ++ k ∷ [] } ≡ s')
      × (length (s.unregister ++ k ∷ []) ≤ unregister_capacity)
unfolding unregister
unregister_inv s s' k e = elim (Option-cases (send unregister_capacity s.unregister k)) [
  | inl full ↦ absurd (ground arith)
  | inr (queue, sent) ↦
      let (at, fit) = fits unregister_capacity s.unregister queue k sent in
      let same : record s { unregister = queue } ≡ s' = some-injective _ s' (ground arith) in
      (ap (λ x. record s { unregister = x }) (sym at) ∙ same, fit)
]

pub local_broadcast_inv :
    (s s' : Loop) (ev : LocalEvent)
    → local_broadcast ev s ≡ some s'
    → (record s { broadcast = s.broadcast ++ ev ∷ [] } ≡ s')
      × (length (s.broadcast ++ ev ∷ []) ≤ broadcast_capacity)
unfolding local_broadcast
local_broadcast_inv s s' ev e = elim (Option-cases (send broadcast_capacity s.broadcast ev)) [
  | inl full ↦ absurd (ground arith)
  | inr (queue, sent) ↦
      let (at, fit) = fits broadcast_capacity s.broadcast queue ev sent in
      let same : record s { broadcast = queue } ≡ s' = some-injective _ s' (ground arith) in
      (ap (λ x. record s { broadcast = x }) (sym at) ∙ same, fit)
]

-- the first value that waits in the channel of a case
abbrev pub first_value : Case → Loop → Option Received
first_value from_register s = elim s.register [ [] ↦ none | k ∷ l ↦ some (registers k) ]
first_value from_unregister s = elim s.unregister [ [] ↦ none | k ∷ l ↦ some (unregisters k) ]
first_value from_broadcast s = elim s.broadcast [ [] ↦ none | ev ∷ l ↦ some (broadcasts ev) ]
first_value from_stop s = none

module _ (clients : ℕ → Client) where
  -- a turn that handles a value is a step of the hub on the first value of the channel of its case
  pub turn_inv :
      (c : Case) (s s' : Loop)
      → turn clients c s ≡ handles s'
      → (e : Received) × (first_value c s ≡ some e)
        × (step clients e s.hub ≡ (ok tt, s'.hub))
        × Took s s' e
  unfolding turn
  turn_inv from_register s s' e = elim (List-cases s.register) [
    | inl none' ↦ absurd (waiting s' (rw (none', turn) at e))
    | inr (v, rest, full) ↦
        let (at, same) =
          handled_inv (record s { register = rest }) s' (step clients (registers v) s.hub)
            (rw (full, turn) at e) in
        (
          registers v,
          rw full refl,
          at,
          (
            full ∙ ap (λ x. v ∷ x.register) (sym same),
            ap (λ x. x.unregister) (sym same),
            ap (λ x. x.broadcast) (sym same),
          ),
        )
  ]
  turn_inv from_unregister s s' e = elim (List-cases s.unregister) [
    | inl none' ↦ absurd (waiting s' (rw (none', turn) at e))
    | inr (v, rest, full) ↦
        let (at, same) =
          handled_inv (record s { unregister = rest }) s' (step clients (unregisters v) s.hub)
            (rw (full, turn) at e) in
        (
          unregisters v,
          rw full refl,
          at,
          (
            ap (λ x. x.register) (sym same),
            full ∙ ap (λ x. v ∷ x.unregister) (sym same),
            ap (λ x. x.broadcast) (sym same),
          ),
        )
  ]
  turn_inv from_broadcast s s' e = elim (List-cases s.broadcast) [
    | inl none' ↦ absurd (waiting s' (rw (none', turn) at e))
    | inr (v, rest, full) ↦
        let (at, same) =
          handled_inv (record s { broadcast = rest }) s' (step clients (broadcasts v) s.hub)
            (rw (full, turn) at e) in
        (
          broadcasts v,
          rw full refl,
          at,
          (
            ap (λ x. x.register) (sym same),
            ap (λ x. x.unregister) (sym same),
            full ∙ ap (λ x. v ∷ x.broadcast) (sym same),
          ),
        )
  ]
  turn_inv from_stop s s' e = elim (Bool-cases s.stopped) [
    | inl shut ↦ absurd (returning s' (rw (shut, turn) at e))
    | inr open' ↦ absurd (waiting s' (rw (open', turn) at e))
  ]

  pub turn-step :
      (c : Case) (s s' : Loop)
      → turn clients c s ≡ handles s'
      → (e : Received) × (step clients e s.hub ≡ (ok tt, s'.hub)) × Took s s' e
  turn-step c s s' e = let (v, first, at, took) = turn_inv c s s' e in (v, at, took)
