-- ===== src/Realtime/Hub/Loop/Rest.antt =====
-- `Run` comes to rest.
use mathlib.Core.Path.{subst}
use go_microservices_chat.Prelude.{
  ℕ, zero, suc, ◌+◌, ◌<◌, String, ◌≡◌, ◌≢◌, ◌⊎◌, refl, sym, ap, ◌∙◌, true, false, arith, length,
  inl, inr, Bool-cases, List-cases, if◌then◌else◌,
}
use go_microservices_chat.Go.Exec.{Result, ok, err, panic}
use go_microservices_chat.Realtime.Hub.{Hub, Client, registers, unregisters, broadcasts, step}
use go_microservices_chat.Realtime.Hub.Loop.Valid.{IsSound, Goes, turn-Goes, turn-ne-panics}
use go_microservices_chat.Realtime.Hub.Loop.{
  Loop, Case, from_register, from_unregister, from_broadcast, from_stop, Turn, handled, waits,
  returns, handles, panics, turn, run, blocked, returned, pending,
}

pub handled-ne-waits : (s : Loop) (r : Result String (Unit {0}) × Hub) → handled s r ≢ waits
handled-ne-waits s (ok _, h) e = ground arith
handled-ne-waits s (err x, h) e = ground arith
handled-ne-waits s (panic, h) e = ground arith

pub Turn-cases :
    (t : Turn) → (t ≡ waits) ⊎ ((s : Loop) × (t ≡ handles s)) ⊎ (t ≡ returns) ⊎ (t ≡ panics)
Turn-cases waits = inl refl
Turn-cases (handles s) = inr (inl (s, refl))
Turn-cases returns = inr (inr (inl refl))
Turn-cases panics = inr (inr (inr refl))

module _ (clients : ℕ → Client) where
  -- `select` waits only while no case is ready
  abbrev pub Picks : (Loop → Case) → Type 0
  Picks choose =
      (s : Loop) → turn clients (choose s) s ≡ waits → (c : Case) → turn clients c s ≡ waits

  -- with nothing that is ready, nothing waits
  pub nothing_waits :
      (s : Loop) → ((c : Case) → turn clients c s ≡ waits) → (pending s ≡ 0) × (s.stopped ≡ false)
  unfolding turn
  nothing_waits s none' =
      let a : length s.register ≡ 0 = elim (List-cases s.register) [
        | inl e ↦ ap length e
        | inr (v, rest, e) ↦
            let at = rw (e, turn) at (none' from_register) in
            absurd (
              handled-ne-waits (record s { register = rest }) (step clients (registers v) s.hub) at)
      ] in
      let b : length s.unregister ≡ 0 = elim (List-cases s.unregister) [
        | inl e ↦ ap length e
        | inr (v, rest, e) ↦
            let at = rw (e, turn) at (none' from_unregister) in
            absurd (
              handled-ne-waits (record s { unregister = rest }) (step clients (unregisters v) s.hub)
                at)
      ] in
      let c : length s.broadcast ≡ 0 = elim (List-cases s.broadcast) [
        | inl e ↦ ap length e
        | inr (v, rest, e) ↦
            let at = rw (e, turn) at (none' from_broadcast) in
            absurd (
              handled-ne-waits (record s { broadcast = rest }) (step clients (broadcasts v) s.hub)
                at)
      ] in
      (
        omega arith,
        elim (Bool-cases s.stopped) [
          | inr e ↦ e
          | inl e ↦ let at = rw (e, turn) at (none' from_stop) in absurd (ground arith)
        ],
      )

  rests :
      (choose : Loop → Case)
      → Picks choose
      → (fuel : ℕ) (s : Loop) → IsSound clients s
      → pending s < fuel
      → (s' : Loop) × (run clients fuel choose s ≡ (if s.stopped then returned s' else blocked s'))
        × IsSound clients s'
        × ((s.stopped ≡ true) ⊎ (pending s' ≡ 0))
  unfolding run
  rests choose picks zero s i enough = absurd (omega arith)
  rests choose picks (suc fuel) s i enough = elim (Turn-cases (turn clients (choose s) s)) [
    | inl e ↦
        let (done, open') = nothing_waits s (picks s e) in
        (s, rw (e, run) (rw open' refl), i, inr done)
    | inr (inl (s', e)) ↦
        let (i', less, same) = subst (Goes clients s) e (turn-Goes clients (choose s) s i) in
        let (s'', at, i'', done) = rests choose picks fuel s' i' (omega arith) in
        (
          s'',
          rw (e, run) (rw (← same) at),
          i'',
          elim done [ inl shut ↦ inl (sym same ∙ shut) | inr none' ↦ inr none' ],
        )
    | inr (inr (inl e)) ↦
        let shut = subst (Goes clients s) e (turn-Goes clients (choose s) s i) in
        (s, rw (e, run) (rw shut refl), i, inl shut)
    | inr (inr (inr e)) ↦ absurd (turn-ne-panics clients s i (choose s) e)
  ]

  -- `Run` ends its work on what waits, if nothing more is sent, in one turn for each value at most,
  -- whichever of the ready cases `select` takes. It does not panic, and leaves a sound hub. If `stop`
  -- is closed, it returns; otherwise it has handled every value that waited, and waits in its `select`.
  pub run-rests :
      (choose : Loop → Case) (s : Loop)
      → Picks choose
      → IsSound clients s
      → (s' : Loop) × (run clients (pending s + 1) choose s
          ≡ (if s.stopped then returned s' else blocked s'))
        × IsSound clients s'
        × ((s.stopped ≡ true) ⊎ (pending s' ≡ 0))
  run-rests choose s picks i = rests choose picks (pending s + 1) s i (omega arith)
