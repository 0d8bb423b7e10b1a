-- ===== src/Realtime/Hub/Loop/Ordered.antt =====
-- Addresses are handed out in order: a client that has not connected yet is new to the hub, before and
-- after every call and every turn.
use mathlib.Core.Path.{subst}
use go_microservices_chat.Prelude.{
  ℕ, suc, ◌<◌, ◌≤◌, ◌≡◌, refl, Bool, true, some, List, [], ◌∷◌, ◌++◌, arith, length, All,
  All-weaken, All-append,
}
use go_microservices_chat.Go.Dict.Laws.{get-empty}
use go_microservices_chat.Go.Int.{ℤ}
use go_microservices_chat.Realtime.Hub.{
  new_channel, Client, LocalEvent, Received, registers, unregisters, broadcasts,
}
use go_microservices_chat.Realtime.Hub.Loop.Turns.{
  register_inv, unregister_inv, local_broadcast_inv, Pairwise-snoc, Took, turn-step,
}
use go_microservices_chat.Realtime.Hub.Loop.Fresh.{IsFresh, Other, step-IsFresh}
use go_microservices_chat.Realtime.Hub.Loop.Valid.{IsSound, Goes, turn-Goes}
use go_microservices_chat.Realtime.Hub.Loop.{
  Loop, Case, handles, turn, register, unregister, local_broadcast, stop, new_hub,
  unregister_capacity, broadcast_capacity,
}

module _ (clients : ℕ → Client) where
  new_hub-IsSound : (bufs : ℕ → ℤ) → IsSound clients (new_hub (λ k. new_channel (bufs k)))
  unfolding new_hub new_channel
  new_hub-IsSound bufs = record {
    tidy = record {
      apart = λ room_id. rw (get-empty {V = List ℕ} room_id) tt;
      holds = λ k. omega arith;
    };
    valid = record {
      subscribed = λ room_id subs e. absurd (ground (arith, get-empty {V = List ℕ} room_id));
    };
    fresh = tt;
    apart = tt;
    registers_fit = omega arith;
    unregisters_fit = omega arith;
    broadcasts_fit = omega arith;
  }

  with_unregisters :
      (s : Loop)
      → IsSound clients s
      → (queue : List ℕ) → length queue ≤ unregister_capacity
      → IsSound clients (record s { unregister = queue })
  with_unregisters s i queue fit = record {
    valid = i.valid;
    tidy = i.tidy;
    fresh = i.fresh;
    apart = i.apart;
    registers_fit = i.registers_fit;
    unregisters_fit = fit;
    broadcasts_fit = i.broadcasts_fit;
  }

  with_broadcasts :
      (s : Loop)
      → IsSound clients s
      → (queue : List LocalEvent) → length queue ≤ broadcast_capacity
      → IsSound clients (record s { broadcast = queue })
  with_broadcasts s i queue fit = record {
    valid = i.valid;
    tidy = i.tidy;
    fresh = i.fresh;
    apart = i.apart;
    registers_fit = i.registers_fit;
    unregisters_fit = i.unregisters_fit;
    broadcasts_fit = fit;
  }

  with_flags :
      (s : Loop) (stopped exited : Bool)
      → IsSound clients s
      → IsSound clients (record s { stopped = stopped; exited = exited })
  with_flags s stopped exited i = record {
    valid = i.valid;
    tidy = i.tidy;
    fresh = i.fresh;
    apart = i.apart;
    registers_fit = i.registers_fit;
    unregisters_fit = i.unregisters_fit;
    broadcasts_fit = i.broadcasts_fit;
  }

  -- clients that have not connected yet are new to the hub, and none of them waits
  pub record IsOrdered (n : ℕ) (s : Loop) : Type 0 where
    pub sound : IsSound clients s
    pub later : (k : ℕ) → n ≤ k → IsFresh clients s.hub k
    pub earlier : All (λ j. j < n) s.register

  -- what is left of a list after a value was taken from it, or all of it
  Took-register :
      (P : ℕ → Type 0) (s s' : Loop) (e : Received)
      → Took s s' e
      → All P s.register
      → All P s'.register
  Took-register P s s' (registers k) at all = (subst (All P) at.0 all).1
  Took-register P s s' (unregisters k) at all = subst (All P) at.0 all
  Took-register P s s' (broadcasts ev) at all = subst (All P) at.0 all

  -- whatever was taken, it was not the registration of a client that does not wait
  Took-Other :
      (n k : ℕ) (s s' : Loop) (e : Received)
      → Took s s' e
      → All (λ j. j < n) s.register
      → n ≤ k
      → Other k e
  Took-Other n k s s' (registers j) at all le =
      let head = (subst (All (λ j. j < n)) at.0 all).0 in λ same. omega (arith, same)
  Took-Other n k s s' (unregisters j) at all le = tt
  Took-Other n k s s' (broadcasts ev) at all le = tt

  pub turn-IsOrdered :
      (n : ℕ) (s s' : Loop) (c : Case)
      → turn clients c s ≡ handles s'
      → IsOrdered n s
      → IsOrdered n s'
  turn-IsOrdered n s s' c at i =
      let (e, done, took) = turn-step clients c s s' at in
      record {
        sound = (subst (Goes clients s) at (turn-Goes clients c s i.sound)).0;
        later = λ k le.
            step-IsFresh clients s.hub s'.hub e k i.sound.valid
              (Took-Other n k s s' e took i.earlier le) done (i.later k le);
        earlier = Took-register (λ j. j < n) s s' e took i.earlier;
      }

  pub joins-IsOrdered :
      (n : ℕ) (s s' : Loop) → register n s ≡ some s' → IsOrdered n s → IsOrdered (suc n) s'
  joins-IsOrdered n s s' e i =
      let (at, fit) = register_inv s s' n e in
      subst (IsOrdered (suc n)) at (record {
        sound = record {
          valid = i.sound.valid;
          tidy = i.sound.tidy;
          fresh =
              All-append (IsFresh clients s.hub) s.register (n ∷ []) i.sound.fresh
                (i.later n (omega arith), tt);
          apart =
              Pairwise-snoc s.register n i.sound.apart
                (All-weaken (λ j lt same. omega (arith, lt, same)) s.register i.earlier);
          registers_fit = fit;
          unregisters_fit = i.sound.unregisters_fit;
          broadcasts_fit = i.sound.broadcasts_fit;
        };
        later = λ k le. i.later k (omega (arith, le));
        earlier =
            All-append (λ j. j < suc n) s.register (n ∷ [])
              (All-weaken (λ j lt. omega (arith, lt)) s.register i.earlier) (omega arith, tt);
      })

  pub leaves-IsOrdered :
      (n k : ℕ) (s s' : Loop) → unregister k s ≡ some s' → IsOrdered n s → IsOrdered n s'
  leaves-IsOrdered n k s s' e i =
      let (at, fit) = unregister_inv s s' k e in
      subst (IsOrdered n) at (record {
        sound = with_unregisters s i.sound (s.unregister ++ k ∷ []) fit;
        later = i.later;
        earlier = i.earlier;
      })

  pub arrives-IsOrdered :
      (n : ℕ) (ev : LocalEvent) (s s' : Loop)
      → local_broadcast ev s ≡ some s'
      → IsOrdered n s
      → IsOrdered n s'
  arrives-IsOrdered n ev s s' e i =
      let (at, fit) = local_broadcast_inv s s' ev e in
      subst (IsOrdered n) at (record {
        sound = with_broadcasts s i.sound (s.broadcast ++ ev ∷ []) fit;
        later = i.later;
        earlier = i.earlier;
      })

  pub stop-IsOrdered : (n : ℕ) (s : Loop) → IsOrdered n s → IsOrdered n (stop s)
  unfolding stop
  stop-IsOrdered n s i = record {
    sound = with_flags s true s.exited i.sound;
    later = i.later;
    earlier = i.earlier;
  }

  pub exit-IsOrdered : (n : ℕ) (s : Loop) → IsOrdered n s → IsOrdered n (record s { exited = true })
  exit-IsOrdered n s i = record {
    sound = with_flags s s.stopped true i.sound;
    later = i.later;
    earlier = i.earlier;
  }

  pub new_hub-IsOrdered : (bufs : ℕ → ℤ) → IsOrdered 0 (new_hub (λ k. new_channel (bufs k)))
  unfolding new_hub new_channel
  new_hub-IsOrdered bufs = record {
    sound = new_hub-IsSound bufs;
    later = λ k le. record {
      opened = refl;
      absent = rw (get-empty {V = List ℕ} (clients k).room_id) refl;
    };
    earlier = tt;
  }
