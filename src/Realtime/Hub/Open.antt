-- ===== src/Realtime/Hub/Open.antt =====
-- The hub never sends on a closed channel and never closes one twice.
use mathlib.Core.Path.{subst}
use mathlib.Core.Option.{some-injective}
use go_microservices_chat.Prelude.{
  ℕ, String, ◌≡◌, refl, sym, ◌∙◌, ap, ◌≢◌, Bool, true, false, not, some, List, [], ◌∷◌, arith, eqb,
  All, All-weaken, All-zip, All-keep, keep, eq_iff, ◌==◌, inl, inr, Option-cases, Bool-cases,
}
use go_microservices_chat.Go.Dict.{Dict}
use go_microservices_chat.Go.Dict
use go_microservices_chat.Go.Dict.Laws.{get-put, get-remove}
use go_microservices_chat.Go.Exec.{ok}
use go_microservices_chat.Realtime.Hub.{
  Hub, Client, Channel, Received, registers, unregisters, broadcasts, step, deliver, offer,
  drop_client, set, without, add, or_nil, has, shrink,
}

-- what `channels` says of every client of a room
abbrev pub Subscribed : (ℕ → Client) → (ℕ → Channel) → String → ℕ → Type 0
Subscribed clients channels room_id k =
    ((clients k).room_id ≡ room_id) × ((channels k).closed ≡ false)

-- every subscriber of a room is a client of it whose channel is open
pub record IsValid (clients : ℕ → Client) (h : Hub) : Type 0 where
  pub subscribed :
      (room_id : String) (subs : List ℕ)
      → Dict.get h.rooms room_id ≡ some subs
      → All (Subscribed clients h.channels room_id) subs

-- only a client whose channel is open is registered
abbrev pub Allowed : Hub → Received → Type 0
Allowed h (registers k) = (h.channels k).closed ≡ false
Allowed h (unregisters k) = Unit
Allowed h (broadcasts ev) = Unit

keep-holds : {A : Type 0} (p : A → Bool) (l : List A) → All (λ x. p x ≡ true) (keep p l)
keep-holds p [] = tt
keep-holds p (x ∷ l) = elim (Bool-cases (p x)) [
  | inl e ↦ rw (e, keep) (e, keep-holds p l)
  | inr e ↦ rw (e, keep) (keep-holds p l)
]

pub offer_closed :
    (payload : String) (channels : ℕ → Channel) (k j : ℕ)
    → (set channels k (offer payload (channels k)) j).closed ≡ (channels j).closed
unfolding offer
offer_closed payload channels k j = elim (Bool-cases (eqb j k)) [
  | inl e ↦ let same : j ≡ k = ground arith in ground (arith, ap channels same)
  | inr e ↦ rw e
]

pub has-All : (P : ℕ → Type 0) (k : ℕ) (l : List ℕ) → has k l ≡ true → All P l → P k
has-All P k [] h all = absurd (ground arith)
has-All P k (j ∷ l) h all = elim (Bool-cases (eqb j k)) [
  | inl e ↦ subst P (ground arith) all.0
  | inr e ↦ has-All P k l (ground arith) all.1
]

add-All : (P : ℕ → Type 0) (k : ℕ) (l : List ℕ) → P k → All P l → All P (add k l)
add-All P k l p all = elim (Bool-cases (has k l)) [ inl e ↦ rw e all | inr e ↦ rw e (p, all) ]

-- a broadcast to open channels reaches each, and opens or closes none
pub deliver_lem :
    (payload : String) (ks : List ℕ) (channels : ℕ → Channel)
    → All (λ k. (channels k).closed ≡ false) ks
    → (channels' : ℕ → Channel) × (deliver payload ks channels ≡ ok channels')
      × ((j : ℕ) → (channels' j).closed ≡ (channels j).closed)
unfolding deliver offer
deliver_lem payload [] channels h = (channels, refl, λ j. refl)
deliver_lem payload (k ∷ ks) channels h =
    let after = set channels k (offer payload (channels k)) in
    let (channels', e, same) =
      deliver_lem payload ks after
        (All-weaken (λ j open'. offer_closed payload channels k j ∙ open') ks h.1) in
    (channels', ground (arith, e), λ j. same j ∙ offer_closed payload channels k j)

module _ (clients : ℕ → Client) where
  pub subscribers :
      (h : Hub) (room_id : String)
      → IsValid clients h
      → All (Subscribed clients h.channels room_id) (or_nil (Dict.get h.rooms room_id))
  subscribers h room_id v = elim (Option-cases (Dict.get h.rooms room_id)) [
    | inl e ↦ rw e tt
    | inr (subs, e) ↦ rw e (v.subscribed room_id subs e)
  ]

  -- what every room of the table says of its clients
  Table : Dict (List ℕ) → (ℕ → Channel) → Type 0
  Table rooms channels =
      (room_id : String) (subs : List ℕ)
      → Dict.get rooms room_id ≡ some subs
      → All (Subscribed clients channels room_id) subs

  -- a room is replaced, and the others hold what they should
  put-Table :
      (rooms : Dict (List ℕ)) (channels : ℕ → Channel) (key : String) (new : List ℕ)
      → All (Subscribed clients channels key) new
      → ((room_id : String) (subs : List ℕ)
          → key ≢ room_id
          → Dict.get rooms room_id ≡ some subs
          → All (Subscribed clients channels room_id) subs)
      → Table (Dict.put rooms key new) channels
  unfolding Table
  put-Table rooms channels key new all others room_id subs e = elim (Bool-cases (key == room_id)) [
    | inl same ↦
        subst (λ x. All (Subscribed clients channels x) subs) ((eq_iff key room_id).0 same)
          (subst (All (Subscribed clients channels key))
            (some-injective new subs (ground (arith, get-put rooms key room_id new))) all)
    | inr other ↦
        others room_id subs (ground (arith, eq_iff key room_id))
          (ground (arith, get-put rooms key room_id new))
  ]

  shrink-Table :
      (rooms : Dict (List ℕ)) (channels : ℕ → Channel) (key : String) (new : List ℕ)
      → All (Subscribed clients channels key) new
      → ((room_id : String) (subs : List ℕ)
          → key ≢ room_id
          → Dict.get rooms room_id ≡ some subs
          → All (Subscribed clients channels room_id) subs)
      → Table (shrink rooms key new) channels
  unfolding Table
  shrink-Table rooms channels key (k ∷ l) all others room_id subs e =
      put-Table rooms channels key (k ∷ l) all others room_id subs e
  shrink-Table rooms channels key [] all others room_id subs e =
      others room_id subs (ground (arith, get-remove rooms key room_id, eq_iff key room_id))
        (ground (arith, get-remove rooms key room_id))

  -- closing the channel of `k` closes no other
  still_open :
      (channels : ℕ → Channel) (k j : ℕ) (ch : Channel) → j ≢ k → set channels k ch j ≡ channels j
  still_open channels k j ch ne = ground arith

  drop_client-IsValid :
      (h : Hub) (k : ℕ) (subs : List ℕ)
      → IsValid clients h
      → Dict.get h.rooms (clients k).room_id ≡ some subs
      → has k subs ≡ true
      → (h' : Hub) × (drop_client clients k subs h ≡ (ok tt, h')) × IsValid clients h'
  unfolding drop_client Table
  drop_client-IsValid h k subs v e here =
      let room_id = (clients k).room_id in
      let shut : Channel = record (h.channels k) { closed = true } in
      let channels' = set h.channels k shut in
      let all = v.subscribed room_id subs e in
      let open' = (has-All (Subscribed clients h.channels room_id) k subs here all).1 in
      (
        record { rooms = shrink h.rooms room_id (without k subs); channels = channels' },
        rw (open', drop_client) refl,
        record {
          subscribed =
              shrink-Table h.rooms channels' room_id (without k subs)
                (All-zip
                  (λ j ne s.
                    (s.0, ap (λ c. c.closed) (still_open h.channels k j shut (ground arith)) ∙ s.1))
                  (without k subs) (keep-holds (λ j. not (eqb j k)) subs)
                  (All-keep (Subscribed clients h.channels room_id) (λ j. not (eqb j k)) subs all))
                (λ other subs' ne found.
                  All-weaken
                    (λ j s. (
                      s.0,
                      ap (λ c. c.closed)
                            (still_open h.channels k j shut
                              (λ p. ne (sym (ap (λ x. (clients x).room_id) p) ∙ s.0)))
                          ∙ s.1,
                    ))
                    subs' (v.subscribed other subs' found));
        },
      )

  -- From a valid hub, a step that registers no client whose channel is closed does not panic, and
  -- leaves a valid hub.
  pub step-IsValid :
      (h : Hub) (e : Received)
      → IsValid clients h
      → Allowed h e
      → (h' : Hub) × (step clients e h ≡ (ok tt, h')) × IsValid clients h'
  unfolding step Table
  step-IsValid h (registers k) v a =
      let room_id = (clients k).room_id in
      let old = or_nil (Dict.get h.rooms room_id) in
      (
        record h { rooms = Dict.put h.rooms room_id (add k old) },
        refl,
        record {
          subscribed =
              put-Table h.rooms h.channels room_id (add k old)
                (add-All (Subscribed clients h.channels room_id) k old (refl, a)
                  (subscribers h room_id v))
                (λ other subs ne found. v.subscribed other subs found);
        },
      )
  step-IsValid h (unregisters k) v a = elim (Option-cases (Dict.get h.rooms (clients k).room_id)) [
    | inl e ↦ (h, rw (e, step) refl, v)
    | inr (subs, e) ↦ elim (Bool-cases (has k subs)) [
      | inr out ↦ (h, rw (e, step) (rw (out, step) refl), v)
      | inl here ↦
          let (h', at, v') = drop_client-IsValid h k subs v e here in
          (h', rw (e, step) (rw (here, step) at), v')
    ]
  ]
  step-IsValid h (broadcasts ev) v a =
      let (channels', e, same) =
        deliver_lem ev.payload (or_nil (Dict.get h.rooms ev.room_id)) h.channels (
          All-weaken (λ k s. s.1) (or_nil (Dict.get h.rooms ev.room_id))
            (subscribers h ev.room_id v)) in
      (
        record h { channels = channels' },
        rw (e, step) refl,
        record {
          subscribed = λ room subs found.
              All-weaken (λ k s. (s.0, same k ∙ s.1)) subs (v.subscribed room subs found);
        },
      )
