-- ===== src/Realtime/Hub/Tidy.antt =====
-- The hub lists nobody twice, and no channel of a client holds more than it has room for.
use mathlib.Core.Path.{subst}
use go_microservices_chat.Prelude.{
  ℕ, ◌≤◌, String, ◌≡◌, ◌≢◌, refl, ap, true, false, not, List, [], ◌∷◌, arith, tests, ltb, eqb,
  length, length-append, All, inl, inr, Bool-cases, Option-cases, ◌==◌,
}
use go_microservices_chat.Go.Dict.{Dict}
use go_microservices_chat.Go.Dict
use go_microservices_chat.Go.Dict.Laws.{get-put, get-remove}
use go_microservices_chat.Go.Exec.{Result, ok, err, panic}
use go_microservices_chat.Go.Sort.{Pairwise, Pairwise-keep}
use go_microservices_chat.Realtime.Hub.{
  Hub, Client, Channel, Received, registers, unregisters, broadcasts, step, deliver, offer,
  drop_client, set, without, add, or_nil, has, shrink, stored,
}

-- the channel holds no more than it has room for
abbrev pub Holds : Channel → Type 0
Holds ch = length ch.buffer ≤ ch.capacity

abbrev pub Apart : List ℕ → Type 0
Apart l = Pairwise (λ j k. j ≢ k) l

pub record IsTidy (h : Hub) : Type 0 where
  pub apart : (room_id : String) → Apart (or_nil (Dict.get h.rooms room_id))
  pub holds : (k : ℕ) → Holds (h.channels k)

pub offer-Holds : (payload : String) (ch : Channel) → Holds ch → Holds (offer payload ch)
unfolding offer
offer-Holds payload ch h = elim (Bool-cases (ltb (length ch.buffer) ch.capacity)) [
  | inl e ↦ rw e (omega (arith, tests, length-append ch.buffer (payload ∷ []), e))
  | inr e ↦ rw e h
]

pub set-Holds :
    (channels : ℕ → Channel) (k : ℕ) (ch : Channel)
    → Holds ch
    → ((j : ℕ) → Holds (channels j))
    → (j : ℕ) → Holds (set channels k ch j)
set-Holds channels k ch h all j = elim (Bool-cases (eqb j k)) [
  | inl e ↦ rw e h
  | inr e ↦ rw e (all j)
]

deliver-Holds :
    (payload : String) (ks : List ℕ) (channels channels' : ℕ → Channel)
    → deliver payload ks channels ≡ ok channels'
    → ((j : ℕ) → Holds (channels j))
    → (j : ℕ) → Holds (channels' j)
unfolding deliver
deliver-Holds payload [] channels channels' e all =
    let same : channels ≡ channels' = ground arith in subst (λ x. (j : ℕ) → Holds (x j)) same all
deliver-Holds payload (k ∷ ks) channels channels' e all =
    deliver-Holds payload ks (set channels k (offer payload (channels k))) channels' (ground arith)
      (set-Holds channels k (offer payload (channels k)) (offer-Holds payload (channels k) (all k))
        all)

absent-All : (k : ℕ) (l : List ℕ) → has k l ≡ false → All (λ j. k ≢ j) l
absent-All k [] h = tt
absent-All k (j ∷ l) h = (λ same. ground arith, absent-All k l (ground arith))

add-Apart : (k : ℕ) (l : List ℕ) → Apart l → Apart (add k l)
add-Apart k l h = elim (Bool-cases (has k l)) [
  | inl e ↦ rw e h
  | inr e ↦ rw e (absent-All k l e, h)
]

put-Apart :
    (rooms : Dict (List ℕ)) (key : String) (l : List ℕ)
    → Apart l
    → ((room_id : String) → Apart (or_nil (Dict.get rooms room_id)))
    → (room_id : String) → Apart (or_nil (Dict.get (Dict.put rooms key l) room_id))
put-Apart rooms key l h all room_id =
    rw (get-put rooms key room_id l)
      (elim (Bool-cases (key == room_id)) [ inl e ↦ rw e h | inr e ↦ rw e (all room_id) ])

shrink-Apart :
    (rooms : Dict (List ℕ)) (key : String) (l : List ℕ)
    → Apart l
    → ((room_id : String) → Apart (or_nil (Dict.get rooms room_id)))
    → (room_id : String) → Apart (or_nil (Dict.get (shrink rooms key l) room_id))
shrink-Apart rooms key (k ∷ l) h all room_id = put-Apart rooms key (k ∷ l) h all room_id
shrink-Apart rooms key [] h all room_id =
    rw (get-remove rooms key room_id)
      (elim (Bool-cases (key == room_id)) [ inl e ↦ rw e tt | inr e ↦ rw e (all room_id) ])

stored_inv :
    (h h' : Hub) (r : Result String (ℕ → Channel))
    → stored h r ≡ (ok tt, h')
    → (channels : ℕ → Channel) × (r ≡ ok channels) × (record h { channels = channels } ≡ h')
stored_inv h h' (ok channels) e = (channels, refl, ap (λ x. x.1) e)
stored_inv h h' (err x) e = absurd (ground arith)
stored_inv h h' panic e = absurd (ground arith)

module _ (clients : ℕ → Client) where
  drop_client-IsTidy :
      (h : Hub) (k : ℕ) (subs : List ℕ)
      → Apart subs
      → IsTidy h
      → IsTidy (drop_client clients k subs h).1
  unfolding drop_client
  drop_client-IsTidy h k subs apart t = elim (Bool-cases (h.channels k).closed) [
    | inl e ↦ rw (e, drop_client) t
    | inr e ↦
        rw (e, drop_client)
          (record {
            apart =
                shrink-Apart h.rooms (clients k).room_id (without k subs)
                  (Pairwise-keep (λ j k. j ≢ k) (λ j. not (eqb j k)) subs apart) t.apart;
            holds =
                set-Holds h.channels k (record (h.channels k) { closed = true }) (t.holds k)
                  t.holds;
          })
  ]

  -- a step that does not panic leaves a tidy hub tidy
  pub step-IsTidy :
      (h h' : Hub) (e : Received) → step clients e h ≡ (ok tt, h') → IsTidy h → IsTidy h'
  unfolding step
  step-IsTidy h h' (registers k) at t =
      let room_id = (clients k).room_id in
      let old = or_nil (Dict.get h.rooms room_id) in
      subst IsTidy (ap (λ x. x.1) at) (record {
        apart = put-Apart h.rooms room_id (add k old) (add-Apart k old (t.apart room_id)) t.apart;
        holds = t.holds;
      })
  step-IsTidy h h' (unregisters k) at t =
      subst IsTidy (ap (λ x. x.1) at) (elim (Option-cases (Dict.get h.rooms (clients k).room_id)) [
        | inl e ↦ rw (e, step) t
        | inr (subs, e) ↦ elim (Bool-cases (has k subs)) [
          | inr out ↦ rw (e, step) (rw (out, step) t)
          | inl here ↦
              let apart = subst Apart (ap or_nil e) (t.apart (clients k).room_id) in
              rw (e, step) (rw (here, step) (drop_client-IsTidy h k subs apart t))
        ]
      ])
  step-IsTidy h h' (broadcasts ev) at t =
      let subs = or_nil (Dict.get h.rooms ev.room_id) in
      let (channels', done, same) = stored_inv h h' (deliver ev.payload subs h.channels) at in
      subst IsTidy same (record {
        apart = t.apart;
        holds = deliver-Holds ev.payload subs h.channels channels' done t.holds;
      })
