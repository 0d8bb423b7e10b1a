-- ===== src/Realtime/Hub/Loop/Valid.antt =====
-- What holds of the hub and of the values that wait in front of it, after every call and every turn of
-- `Run`.
use mathlib.Core.Path.{subst}
use go_microservices_chat.Prelude.{
  ℕ, suc, ◌≤◌, ◌≡◌, ◌≢◌, refl, ap, true, false, List, [], ◌∷◌, arith, length, All, All-zip, inl,
  inr, List-cases,
}
use go_microservices_chat.Go.Exec.{ok}
use go_microservices_chat.Go.Sort.{Pairwise}
use go_microservices_chat.Realtime.Hub.{
  Hub, Client, Received, registers, unregisters, broadcasts, step,
}
use go_microservices_chat.Realtime.Hub.Open.{IsValid, Allowed, step-IsValid}
use go_microservices_chat.Realtime.Hub.Tidy.{IsTidy, step-IsTidy}
use go_microservices_chat.Realtime.Hub.Loop.Fresh.{IsFresh, Other, step-IsFresh}
use go_microservices_chat.Realtime.Hub.Loop.{
  Loop, Case, from_register, from_unregister, from_broadcast, from_stop, Turn, waits, handles,
  returns, panics, handled, turn, pending, register_capacity, unregister_capacity,
  broadcast_capacity,
}

module _ (clients : ℕ → Client) where
  -- the hub is valid and tidy, the clients that wait to be registered are different and not in the hub, their
  -- channels are open, and no channel holds more than it has room for
  pub record IsSound (s : Loop) : Type 0 where
    pub valid : IsValid clients s.hub
    pub tidy : IsTidy s.hub
    pub fresh : All (IsFresh clients s.hub) s.register
    pub apart : Pairwise (λ j k. j ≢ k) s.register
    pub registers_fit : length s.register ≤ register_capacity
    pub unregisters_fit : length s.unregister ≤ unregister_capacity
    pub broadcasts_fit : length s.broadcast ≤ broadcast_capacity

  -- what a turn may come to
  abbrev pub Goes : Loop → Turn → Type 0
  Goes s waits = Unit
  Goes s (handles s') = IsSound s' × (suc (pending s') ≡ pending s) × (s'.stopped ≡ s.stopped)
  Goes s returns = s.stopped ≡ true
  Goes s panics = true ≡ false

  -- the hub after a step, with the clients that wait
  after_step :
      (h : Hub) (e : Received) (queue : List ℕ)
      → IsValid clients h
      → IsTidy h
      → Allowed h e
      → All (IsFresh clients h) queue
      → All (λ k. Other k e) queue
      → (h' : Hub) × (step clients e h ≡ (ok tt, h'))
        × IsValid clients h'
        × IsTidy h'
        × All (IsFresh clients h') queue
  after_step h e queue v tidy allowed fresh other =
      let (h', at, v') = step-IsValid clients h e v allowed in
      (
        h',
        at,
        v',
        step-IsTidy clients h h' e at tidy,
        All-zip (λ k o f. step-IsFresh clients h h' e k v o at f) queue other fresh,
      )

  everyone : (queue : List ℕ) → All {0, 0} (λ (k : ℕ). Unit) queue
  everyone [] = tt
  everyone (k ∷ queue) = (tt, everyone queue)

  -- whichever case it takes, `Run` does not panic
  pub turn-Goes : (c : Case) (s : Loop) → IsSound s → Goes s (turn clients c s)
  unfolding turn
  turn-Goes from_stop s i = ground arith
  turn-Goes from_register s i = elim (List-cases s.register) [
    | inl e ↦ rw (e, turn) tt
    | inr (k, rest, e) ↦
        let fresh = subst (All (IsFresh clients s.hub)) e i.fresh in
        let apart = subst (Pairwise (λ j k. j ≢ k)) e i.apart in
        let (h', at, v', tidy', fresh') =
          after_step s.hub (registers k) rest i.valid i.tidy fresh.0.opened fresh.1 apart.0 in
        rw (e, turn)
          (rw (at, handled)
            (
              record {
                valid = v';
                tidy = tidy';
                fresh = fresh';
                apart = apart.1;
                registers_fit = omega (arith, i.registers_fit, ap length e);
                unregisters_fit = i.unregisters_fit;
                broadcasts_fit = i.broadcasts_fit;
              },
              omega arith,
              refl,
            ))
  ]
  turn-Goes from_unregister s i = elim (List-cases s.unregister) [
    | inl e ↦ rw (e, turn) tt
    | inr (k, rest, e) ↦
        let (h', at, v', tidy', fresh') =
          after_step s.hub (unregisters k) s.register i.valid i.tidy tt i.fresh
            (everyone s.register) in
        rw (e, turn)
          (rw (at, handled)
            (
              record {
                valid = v';
                tidy = tidy';
                fresh = fresh';
                apart = i.apart;
                registers_fit = i.registers_fit;
                unregisters_fit = omega (arith, i.unregisters_fit, ap length e);
                broadcasts_fit = i.broadcasts_fit;
              },
              omega arith,
              refl,
            ))
  ]
  turn-Goes from_broadcast s i = elim (List-cases s.broadcast) [
    | inl e ↦ rw (e, turn) tt
    | inr (ev, rest, e) ↦
        let (h', at, v', tidy', fresh') =
          after_step s.hub (broadcasts ev) s.register i.valid i.tidy tt i.fresh
            (everyone s.register) in
        rw (e, turn)
          (rw (at, handled)
            (
              record {
                valid = v';
                tidy = tidy';
                fresh = fresh';
                apart = i.apart;
                registers_fit = i.registers_fit;
                unregisters_fit = i.unregisters_fit;
                broadcasts_fit = omega (arith, i.broadcasts_fit, ap length e);
              },
              omega arith,
              refl,
            ))
  ]

  pub turn-ne-panics : (s : Loop) → IsSound s → (c : Case) → turn clients c s ≢ panics
  turn-ne-panics s i c e =
      let bad : true ≡ false = subst (Goes s) e (turn-Goes c s i) in absurd (ground arith)
