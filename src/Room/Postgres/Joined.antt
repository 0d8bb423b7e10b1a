-- ===== src/Room/Postgres/Joined.antt =====
-- The rooms that the loop of `ListRoomsByMember` in repository_inmem.go collects, as a set.
use mathlib.Core.List.{Memᴰ, Nodup, Nodup-nil, Nodup-cons}
use mathlib.Core.List.Memᴰ
use mathlib.Core.Option.{some-injective, some-ne-none}
use mathlib.Core.Path.{subst}
use mathlib.Core.Logic.{∥∥₁_elim}
use mathlib.Core.HLevel.{⊥_prop}
use go_microservices_chat.Prelude.{
  String, ◌≡◌, ◌≢◌, refl, sym, ap, ◌∙◌, none, some, List, [], ◌∷◌, All, arith, inl, inr,
  Option-cases, Bool-cases, ◌==◌, eq_iff, eq_refl,
}
use go_microservices_chat.Go.Dict
use go_microservices_chat.Go.Dict.{Dict, Distinct, lookup}
use go_microservices_chat.Go.Dict.Laws.{get-empty, get-entries, lookup-cons, lookup-nil, get-lookup}
use go_microservices_chat.Go.Time.{Time}
use go_microservices_chat.Room.Inmem.{InMemRepository, members_of, or_nil, joined_rooms}
use go_microservices_chat.Room.Inmem.Invariant.{IsValid}
use go_microservices_chat.Room.Types.{Room}

-- the room is in the map, and the user is one of its members
abbrev pub Joins : InMemRepository → String → Room → Type 0
Joins r user_id x =
    (Dict.get r.rooms x.id ≡ some x)
    × ((at : Time) × (Dict.get (members_of r x.id) user_id ≡ some at))

-- what holds of each element
pub All-each : {A : Type 0} (P : A → Type 0) (l : List A) → ((x : A) → Memᴰ x l → P x) → All P l
All-each P [] h = tt
All-each P (a ∷ l) h = (h a (Memᴰ.head refl), All-each P l (λ x m. h x (Memᴰ.tail m)))

module _ (r : InMemRepository) (user_id : String) where
  abbrev Stored : String × Dict Time → Type 0
  Stored row = Dict.get r.members row.0 ≡ some row.1

  abbrev joined : List (String × Dict Time) → List Room
  joined = joined_rooms r.rooms user_id

  skipped :
      (k : String) (ms : Dict Time) (l : List (String × Dict Time))
      → Dict.get ms user_id ≡ none
      → joined ((k, ms) ∷ l) ≡ joined l
  unfolding joined_rooms
  skipped k ms l e = rw (e, joined_rooms) refl

  listed :
      (k : String) (ms : Dict Time) (l : List (String × Dict Time)) (at : Time) (w : Room)
      → Dict.get ms user_id ≡ some at
      → Dict.get r.rooms k ≡ some w
      → joined ((k, ms) ∷ l) ≡ w ∷ joined l
  unfolding joined_rooms
  listed k ms l at w e f = rw (e, joined_rooms) (rw (f, joined_rooms) refl)

  -- a room without its map of members is not stored
  here :
      (v : IsValid r) (k : String) (ms : Dict Time)
      → Dict.get r.members k ≡ some ms
      → (w : Room) × (Dict.get r.rooms k ≡ some w) × (w.id ≡ k)
  here v k ms e = elim (Option-cases (Dict.get r.rooms k)) [
    | inl f ↦ absurd (v.has_room k ms e f)
    | inr (w, f) ↦ (w, f, v.at_id k w f)
  ]

  later :
      (key k : String) (ms : Dict Time) (l : List (String × Dict Time))
      → lookup key l ≢ none
      → lookup key ((k, ms) ∷ l) ≢ none
  later key k ms l h = ground (arith, lookup-cons key k ms l, h)

  module _ (v : IsValid r) where
    in_joined :
        (x : Room) (l : List (String × Dict Time))
        → All Stored l
        → Memᴰ x (joined l)
        → Joins r user_id x × (lookup x.id l ≢ none)
    unfolding joined_rooms
    in_joined x [] h m = absurd (Memᴰ.not-nil m)
    in_joined x ((k, ms) ∷ l) h m = elim (Option-cases (Dict.get ms user_id)) [
      | inl e ↦
          let (joins, found) = in_joined x l h.1 (subst (Memᴰ x) (skipped k ms l e) m) in
          (joins, later x.id k ms l found)
      | inr (at, e) ↦
          let (w, f, id) = here v k ms h.0 in
          elim (Memᴰ.cases_cons (subst (Memᴰ x) (listed k ms l at w e f) m)) [
            | inl same ↦
                let key : x.id ≡ k = ap (λ y. y.id) same ∙ id in
                let members : members_of r x.id ≡ ms =
                  ap (λ y. or_nil (Dict.get r.members y)) key ∙ ap or_nil h.0 in
                (
                  (
                    ap (Dict.get r.rooms) key ∙ f ∙ ap some (sym same),
                    (at, ap (λ d. Dict.get d user_id) members ∙ e),
                  ),
                  λ gone. some-ne-none ms (
                      sym (rw (lookup-cons x.id k ms l) (rw (sym key) (rw (eq_refl x.id) refl)))
                      ∙ gone),
                )
            | inr rest ↦
                let (joins, found) = in_joined x l h.1 rest in (joins, later x.id k ms l found)
          ]
    ]

    to_joined :
        (x : Room) (l : List (String × Dict Time)) (ms : Dict Time) (at : Time)
        → All Stored l
        → lookup x.id l ≡ some ms
        → Dict.get ms user_id ≡ some at
        → Dict.get r.rooms x.id ≡ some x
        → Memᴰ x (joined l)
    unfolding joined_rooms
    to_joined x [] ms at h there member room =
        absurd (some-ne-none ms (sym there ∙ lookup-nil x.id))
    to_joined x ((k, other) ∷ l) ms at h there member room = elim (Bool-cases (k == x.id)) [
      | inl e ↦
          let key : k ≡ x.id = (eq_iff k x.id).0 e in
          let same : other ≡ ms =
            some-injective other ms (ground (arith, lookup-cons x.id k other l)) in
          subst (Memᴰ x)
            (sym (
              listed k other l at x (ap (λ d. Dict.get d user_id) same ∙ member)
                (ap (Dict.get r.rooms) key ∙ room)))
            (Memᴰ.head refl)
      | inr e ↦
          let rest =
            to_joined x l ms at h.1 (ground (arith, lookup-cons x.id k other l)) member room in
          elim (Option-cases (Dict.get other user_id)) [
            | inl f ↦ subst (Memᴰ x) (sym (skipped k other l f)) rest
            | inr (at', f) ↦
                let (w, g, id) = here v k other h.0 in
                subst (Memᴰ x) (sym (listed k other l at' w f g)) (Memᴰ.tail rest)
          ]
    ]

    joined-Nodup : (l : List (String × Dict Time)) → All Stored l → Distinct l → Nodup (joined l)
    unfolding joined_rooms
    joined-Nodup [] h d = Nodup-nil
    joined-Nodup ((k, ms) ∷ l) h d = elim (Option-cases (Dict.get ms user_id)) [
      | inl e ↦ subst Nodup (sym (skipped k ms l e)) (joined-Nodup l h.1 d.1)
      | inr (at, e) ↦
          let (w, f, id) = here v k ms h.0 in
          subst Nodup (sym (listed k ms l at w e f)) (
            Nodup-cons.1 (
              (λ m.
                  ∥∥₁_elim m ⊥_prop
                    (λ found. (in_joined w l h.1 found).1 (ap (λ y. lookup y l) id ∙ d.0))),
              joined-Nodup l h.1 d.1,
            ))
    ]

    -- the loop collects the rooms that the user joins, each once
    pub joined_lem :
        let l = joined r.members.entries in
        Nodup l
        × ((x : Room) → Memᴰ x l → Joins r user_id x)
        × ((x : Room) → Joins r user_id x → Memᴰ x l)
    joined_lem =
        let stored = get-entries r.members v.members_map in
        (
          joined-Nodup r.members.entries stored v.members_map.distinct,
          λ x m. (in_joined x r.members.entries stored m).0,
          λ x (room, (at, member)). elim (Option-cases (Dict.get r.members x.id)) [
            | inl e ↦ absurd (
                some-ne-none at (
                  sym member
                  ∙ ap (λ d. Dict.get (or_nil d) user_id) e
                  ∙ get-empty {V = Time} user_id))
            | inr (ms, e) ↦
                to_joined x r.members.entries ms at stored (sym (get-lookup r.members x.id) ∙ e)
                  (ap (λ d. Dict.get (or_nil d) user_id) (sym e) ∙ member) room
          ],
        )
