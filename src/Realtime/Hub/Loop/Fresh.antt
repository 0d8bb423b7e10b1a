-- ===== src/Realtime/Hub/Loop/Fresh.antt =====
-- A client that is new to the hub stays new until its registration is taken.
use mathlib.Core.Path.{subst}
use go_microservices_chat.Prelude.{
  ℕ, String, ◌≡◌, ◌≢◌, refl, sym, ap, ◌∙◌, true, false, some, List, [], ◌∷◌, arith, eqb, All-weaken,
  inl, inr, Option-cases, Bool-cases, eq_iff,
}
use go_microservices_chat.Go.Dict.{Dict}
use go_microservices_chat.Go.Dict
use go_microservices_chat.Go.Dict.Laws.{get-put, get-remove}
use go_microservices_chat.Go.Exec.{ok}
use go_microservices_chat.Realtime.Hub.{
  Hub, Client, Received, registers, unregisters, broadcasts, step, drop_client, without, or_nil,
  has, add, shrink,
}
use go_microservices_chat.Realtime.Hub.Open.{IsValid, deliver_lem, subscribers}
use go_microservices_chat.Realtime.Hub.Order.{room_of}

-- the event is not the registration of `k`
abbrev pub Other : ℕ → Received → Type 0
Other k (registers j) = j ≢ k
Other k (unregisters j) = Unit
Other k (broadcasts ev) = Unit

has-add : (k j : ℕ) (l : List ℕ) → j ≢ k → has k l ≡ false → has k (add j l) ≡ false
has-add k j l ne absent = ground arith

has-without_other : (k j : ℕ) (l : List ℕ) → has k l ≡ false → has k (without j l) ≡ false
has-without_other k j [] absent = refl
has-without_other k j (i ∷ l) absent = ground (arith, has-without_other k j l)

-- a room of the table is replaced
has-put :
    (rooms : Dict (List ℕ)) (room_id key : String) (k : ℕ) (l : List ℕ)
    → (room_id ≡ key → has k l ≡ false)
    → has k (or_nil (Dict.get rooms key)) ≡ false
    → has k (or_nil (Dict.get (Dict.put rooms room_id l) key)) ≡ false
has-put rooms room_id key k l new old =
    ground (arith, get-put rooms room_id key l, eq_iff room_id key)

has-shrink_other :
    (rooms : Dict (List ℕ)) (room_id key : String) (k : ℕ) (l : List ℕ)
    → (room_id ≡ key → has k l ≡ false)
    → has k (or_nil (Dict.get rooms key)) ≡ false
    → has k (or_nil (Dict.get (shrink rooms room_id l) key)) ≡ false
has-shrink_other rooms room_id key k (j ∷ l) new old = has-put rooms room_id key k (j ∷ l) new old
has-shrink_other rooms room_id key k [] new old = ground (arith, get-remove rooms room_id key)

module _ (clients : ℕ → Client) where
  -- a client that is not in the hub and whose channel is open
  pub record IsFresh (h : Hub) (k : ℕ) : Type 0 where
    pub opened : (h.channels k).closed ≡ false
    pub absent : has k (room_of clients k h) ≡ false

  -- a room that is the one of a fresh client does not hold it
  not_in :
      (h : Hub) (k : ℕ) (room_id : String) (subs : List ℕ)
      → IsFresh h k
      → or_nil (Dict.get h.rooms room_id) ≡ subs
      → room_id ≡ (clients k).room_id
      → has k subs ≡ false
  not_in h k room_id subs fresh e same =
      subst (λ x. has k x ≡ false) (ap (λ x. or_nil (Dict.get h.rooms x)) (sym same) ∙ e)
        fresh.absent

  registers-IsFresh :
      (h : Hub) (j k : ℕ) → j ≢ k → IsFresh h k → IsFresh (step clients (registers j) h).1 k
  unfolding step
  registers-IsFresh h j k ne fresh =
      let room_id = (clients j).room_id in
      let old = or_nil (Dict.get h.rooms room_id) in
      record {
        opened = fresh.opened;
        absent =
            has-put h.rooms room_id (clients k).room_id k (add j old)
              (λ same. has-add k j old ne (not_in h k room_id old fresh refl same)) fresh.absent;
      }

  -- a member of the room is not the fresh client
  differs :
      (h : Hub) (j k : ℕ) (subs : List ℕ)
      → has j subs ≡ true
      → ((clients j).room_id ≡ (clients k).room_id → has k subs ≡ false)
      → eqb k j ≡ false
  differs h j k subs here new = elim (Bool-cases (eqb k j)) [
    | inr e ↦ e
    | inl e ↦
        let same : j ≡ k = ground arith in
        let out = new (ap (λ x. (clients x).room_id) same) in
        let inside = subst (λ x. has x subs ≡ true) same here in absurd (ground arith)
  ]

  drop_client-IsFresh :
      (h : Hub) (j k : ℕ) (subs : List ℕ)
      → Dict.get h.rooms (clients j).room_id ≡ some subs
      → has j subs ≡ true
      → IsFresh h k
      → IsFresh (drop_client clients j subs h).1 k
  unfolding drop_client
  drop_client-IsFresh h j k subs e here fresh = elim (Bool-cases (h.channels j).closed) [
    | inl shut ↦ rw (shut, drop_client) fresh
    | inr opened ↦
        let room_id = (clients j).room_id in
        let new = not_in h k room_id subs fresh (ap or_nil e) in
        let apart = differs h j k subs here new in
        rw (opened, drop_client)
          (record {
            opened = rw apart fresh.opened;
            absent =
                has-shrink_other h.rooms room_id (clients k).room_id k (without j subs)
                  (λ same. has-without_other k j subs (new same)) fresh.absent;
          })
  ]

  pub step-IsFresh :
      (h h' : Hub) (e : Received) (k : ℕ)
      → IsValid clients h
      → Other k e
      → step clients e h ≡ (ok tt, h')
      → IsFresh h k
      → IsFresh h' k
  unfolding step
  step-IsFresh h h' (registers j) k v other at fresh =
      subst (λ x. IsFresh x k) (ap (λ x. x.1) at) (registers-IsFresh h j k other fresh)
  step-IsFresh h h' (unregisters j) k v other at fresh =
      subst (λ x. IsFresh x k) (ap (λ x. x.1) at)
        (elim (Option-cases (Dict.get h.rooms (clients j).room_id)) [
          | inl e ↦ rw (e, step) fresh
          | inr (subs, e) ↦ elim (Bool-cases (has j subs)) [
            | inr out ↦ rw (e, step) (rw (out, step) fresh)
            | inl here ↦
                rw (e, step) (rw (here, step) (drop_client-IsFresh h j k subs e here fresh))
          ]
        ])
  step-IsFresh h h' (broadcasts ev) k v other at fresh =
      let subs = or_nil (Dict.get h.rooms ev.room_id) in
      let (channels', f, same) =
        deliver_lem ev.payload subs h.channels
          (All-weaken (λ j s. s.1) subs (subscribers clients h ev.room_id v)) in
      subst (λ x. IsFresh x k) (ap (λ x. x.1) at)
        (rw (f, step) (record { opened = same k ∙ fresh.opened; absent = fresh.absent }))
