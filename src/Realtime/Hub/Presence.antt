-- ===== src/Realtime/Hub/Presence.antt =====
-- What the hub of services/realtime-service/internal/hub promises, without maps, lists and their order:
-- who is in which room, and what the channels hold.
use go_microservices_chat.Prelude.{
  ℕ, String, Bool, true, false, ◌≡◌, refl, ap, ◌∙◌, some, List, [], ◌∷◌, arith, eqb, inl, inr,
  Bool-cases, Option-cases, ◌==◌, eq_iff, if◌then◌else◌,
}
use go_microservices_chat.Go.Dict
use go_microservices_chat.Go.Dict.{Dict}
use go_microservices_chat.Go.Dict.Laws.{get-put, get-remove}
use go_microservices_chat.Realtime.Hub.{
  Hub, Client, Channel, LocalEvent, Received, registers, unregisters, broadcasts, step, drop_client,
  offer, set, or_nil, has, add, without, shrink,
}
use go_microservices_chat.Realtime.Hub.Delivery.{broadcast_lem}
use go_microservices_chat.Realtime.Hub.Open.{IsValid, has-All}
use go_microservices_chat.Realtime.Hub.Tidy.{IsTidy}

pub record Presence : Type 0 where
  pub inside : String → ℕ → Bool
  pub channels : ℕ → Channel

abbrev pub presence : Hub → Presence
presence h = record {
  inside = λ room_id j. has j (or_nil (Dict.get h.rooms room_id));
  channels = h.channels;
}

-- `answer` for one client in one room, and what was so before for all others
abbrev put_in : String → ℕ → Bool → (String → ℕ → Bool) → String → ℕ → Bool
put_in room_id k answer inside r j =
    if room_id == r then if eqb k j then answer else inside r j else inside r j

-- what each value that `Run` receives is for
unfoldable pub promised : (ℕ → Client) → Received → Presence → Presence
promised clients (registers k) p = record p { inside = put_in (clients k).room_id k true p.inside }
promised clients (unregisters k) p =
    if p.inside (clients k).room_id k
    then record {
      inside = put_in (clients k).room_id k false p.inside;
      channels = set p.channels k (record (p.channels k) { closed = true });
    }
    else p
promised clients (broadcasts ev) p = record p {
  channels = λ j. if p.inside ev.room_id j then offer ev.payload (p.channels j) else p.channels j;
}

has-add : (k j : ℕ) (l : List ℕ) → has j (add k l) ≡ (if eqb k j then true else has j l)
has-add k j l = elim (Bool-cases (has k l)) [
  | inl e ↦ elim (Bool-cases (eqb k j)) [
    | inl hit ↦ let same : k ≡ j = ground arith in ground (arith, ap (λ x. has x l) same)
    | inr other ↦ ground arith
  ]
  | inr e ↦ rw e refl
]

has-without : (k j : ℕ) (l : List ℕ) → has j (without k l) ≡ (if eqb k j then false else has j l)
has-without k j [] = ground arith
has-without k j (i ∷ l) = ground (arith, has-without k j l)

inside_put :
    (rooms : Dict (List ℕ)) (room_id r : String) (l : List ℕ) (j : ℕ)
    → has j (or_nil (Dict.get (Dict.put rooms room_id l) r))
      ≡ (if room_id == r then has j l else has j (or_nil (Dict.get rooms r)))
inside_put rooms room_id r l j = ground (arith, get-put rooms room_id r l)

inside_shrink :
    (rooms : Dict (List ℕ)) (room_id r : String) (l : List ℕ) (j : ℕ)
    → has j (or_nil (Dict.get (shrink rooms room_id l) r))
      ≡ (if room_id == r then has j l else has j (or_nil (Dict.get rooms r)))
inside_shrink rooms room_id r [] j = ground (arith, get-remove rooms room_id r)
inside_shrink rooms room_id r (k ∷ l) j = inside_put rooms room_id r (k ∷ l) j

-- a room whose list differs from before in one client
one_changed :
    (rooms : Dict (List ℕ)) (room_id r : String) (l : List ℕ) (k j : ℕ) (answer : Bool)
    → (has j l ≡ (if eqb k j then answer else has j (or_nil (Dict.get rooms room_id))))
    → (if room_id == r then has j l else has j (or_nil (Dict.get rooms r)))
      ≡ put_in room_id k answer (λ x i. has i (or_nil (Dict.get rooms x))) r j
one_changed rooms room_id r l k j answer h = elim (Bool-cases (room_id == r)) [
  | inl hit ↦
      let same : room_id ≡ r = (eq_iff room_id r).0 hit in
      rw hit (h ∙ ap (λ x. if eqb k j then answer else has j (or_nil (Dict.get rooms x))) same)
  | inr other ↦ rw other refl
]

pub same_presence :
    (p q : Presence)
    → ((r : String) (j : ℕ) → p.inside r j ≡ q.inside r j)
    → ((j : ℕ) → p.channels j ≡ q.channels j)
    → p ≡ q
same_presence p q h h' = λ i. record { inside = λ r j. h r j i; channels = λ j. h' j i }

module _ (clients : ℕ → Client) where
  registers_promised :
      (h : Hub) (k : ℕ)
      → presence (step clients (registers k) h).1 ≡ promised clients (registers k) (presence h)
  unfolding step promised
  registers_promised h k =
      let room_id = (clients k).room_id in
      let old = or_nil (Dict.get h.rooms room_id) in
      same_presence _ _
        (λ r j.
          inside_put h.rooms room_id r (add k old) j
          ∙ one_changed h.rooms room_id r (add k old) k j true (has-add k j old))
        (λ j. refl)

  -- the end of a connection of which the hub knows nothing
  unknown_promised :
      (h : Hub) (k : ℕ)
      → has k (or_nil (Dict.get h.rooms (clients k).room_id)) ≡ false
      → presence h ≡ promised clients (unregisters k) (presence h)
  unfolding promised
  unknown_promised h k e = rw e refl

  known_promised :
      (h : Hub) (k : ℕ) (subs : List ℕ)
      → Dict.get h.rooms (clients k).room_id ≡ some subs
      → has k subs ≡ true
      → (h.channels k).closed ≡ false
      → presence (drop_client clients k subs h).1 ≡ promised clients (unregisters k) (presence h)
  unfolding promised drop_client
  known_promised h k subs e member open' =
      let room_id = (clients k).room_id in
      let left = without k subs in
      rw open' (
        rw e (
          rw member (
            same_presence _ _
              (λ r j.
                inside_shrink h.rooms room_id r left j
                ∙ one_changed h.rooms room_id r left k j false (rw e (has-without k j subs)))
              (λ j. refl))))

  unregisters_promised :
      (h : Hub) (k : ℕ)
      → IsValid clients h
      → presence (step clients (unregisters k) h).1 ≡ promised clients (unregisters k) (presence h)
  unfolding step
  unregisters_promised h k v = elim (Option-cases (Dict.get h.rooms (clients k).room_id)) [
    | inl e ↦ rw (e, step) (unknown_promised h k (rw e refl))
    | inr (subs, e) ↦ elim (Bool-cases (has k subs)) [
      | inr out ↦ rw (e, step) (rw out (unknown_promised h k (rw e out)))
      | inl member ↦
          let open' = (has-All _ k subs member (v.subscribed (clients k).room_id subs e)).1 in
          rw (e, step) (rw member (known_promised h k subs e member open'))
    ]
  ]

  broadcasts_promised :
      (h : Hub) (ev : LocalEvent)
      → IsValid clients h
      → IsTidy h
      → presence (step clients (broadcasts ev) h).1 ≡ promised clients (broadcasts ev) (presence h)
  unfolding promised
  broadcasts_promised h ev v t =
      let (h', at, rooms, each) = broadcast_lem clients h ev v (t.apart ev.room_id) in
      ap (λ x. presence x.1) at
      ∙ same_presence _ _ (λ r j. ap (λ m. has j (or_nil (Dict.get m r))) rooms) each

  -- From a valid hub that lists nobody twice, every value that `Run` receives changes who is in which room
  -- and what the channels hold as promised.
  pub step-promised :
      (h : Hub) (e : Received)
      → IsValid clients h
      → IsTidy h
      → presence (step clients e h).1 ≡ promised clients e (presence h)
  step-promised h (registers k) v t = registers_promised h k
  step-promised h (unregisters k) v t = unregisters_promised h k v
  step-promised h (broadcasts ev) v t = broadcasts_promised h ev v t
