-- ===== src/Room/Inmem/Effects.antt =====
-- What the methods on one room answer and leave, in terms of who is in the room.
use go_microservices_chat.Prelude.{
  String, ◌≡◌, ◌≢◌, refl, none, some, arith, ◌==◌, inl, inr, Option-cases, Bool-cases,
  if◌then◌else◌,
}
use go_microservices_chat.Go.Dict.{Dict}
use go_microservices_chat.Go.Dict
use go_microservices_chat.Go.Dict.Laws.{get-put, get-empty}
use go_microservices_chat.Go.Exec.{ok, err}
use go_microservices_chat.Go.Time.{Time}
use go_microservices_chat.Chat.Errors.{room_error, already_member, not_member}
use go_microservices_chat.Room.Inmem as Memory
use go_microservices_chat.Room.Inmem.{InMemRepository, inmem, members_of}
use go_microservices_chat.Room.Inmem.Invariant.{IsValid}
use go_microservices_chat.Room.Postgres.Tables.{is_there}

pub asked :
    (id user : String) (r : InMemRepository)
    → Memory.is_member id user r ≡ (ok (is_there (Dict.get (members_of r id) user)), r)
unfolding Memory.is_member
asked id user r = elim (Option-cases (Dict.get r.members id)) [
  | inl e ↦ rw (e, Memory.is_member) (rw (get-empty {V = Time} user) refl)
  | inr (ms, e) ↦ elim (Option-cases (Dict.get ms user)) [
    | inl f ↦ rw (e, Memory.is_member) (rw (f, Memory.is_member) refl)
    | inr (at, f) ↦ rw (e, Memory.is_member) (rw (f, Memory.is_member) refl)
  ]
]

-- membership after the members of one room are replaced
pub there_put :
    (r : InMemRepository) (id : String) (ms : Dict Time) (j w : String)
    → is_there (Dict.get (Memory.or_nil (Dict.get (Dict.put r.members id ms) j)) w)
      ≡ (if id == j then is_there (Dict.get ms w) else is_there (Dict.get (members_of r j) w))
there_put r id ms j w = elim (Bool-cases (id == j)) [
  | inl e ↦ rw (get-put r.members id j ms) (rw e refl)
  | inr e ↦ rw (get-put r.members id j ms) (rw e refl)
]

pub no_members :
    (r : InMemRepository) (id w : String)
    → IsValid r
    → Dict.get r.rooms id ≡ none
    → Dict.get (members_of r id) w ≡ none
no_members r id w v fresh = elim (Option-cases (Dict.get r.members id)) [
  | inl e ↦ rw e (get-empty {V = Time} w)
  | inr (ms, e) ↦ absurd (v.has_room id ms e fresh)
]

module _ (r : InMemRepository) (v : IsValid r) (id user : String)
    (known : Dict.get r.rooms id ≢ none) where
  -- the members of a room that exists are replaced
  abbrev pub replaced : Dict Time → InMemRepository
  replaced ms = record r { members = Dict.put r.members id ms }

  pub memory_add :
      (now : Time)
      → Dict.get (members_of r id) user ≡ none
      → Memory.add_member now id user r ≡ (ok tt, replaced (Dict.put (members_of r id) user now))
  unfolding Memory.add_member Memory.join_map
  memory_add now f = elim (Option-cases (Dict.get r.rooms id)) [
    | inl e ↦ absurd (known e)
    | inr (room, e) ↦ elim (Option-cases (Dict.get r.members id)) [
      | inl missing ↦ absurd (v.has_members id room e missing)
      | inr (ms, here) ↦ ground (arith, e, f, here)
    ]
  ]

  pub memory_refuse :
      (now at : Time)
      → Dict.get (members_of r id) user ≡ some at
      → Memory.add_member now id user r ≡ (err (room_error already_member), r)
  unfolding Memory.add_member
  memory_refuse now at f = elim (Option-cases (Dict.get r.rooms id)) [
    | inl e ↦ absurd (known e)
    | inr (room, e) ↦ ground (arith, e, f)
  ]

  pub memory_remove :
      (at : Time)
      → Dict.get (members_of r id) user ≡ some at
      → Memory.remove_member id user r ≡ (ok tt, replaced (Dict.remove (members_of r id) user))
  unfolding Memory.remove_member
  memory_remove at f = elim (Option-cases (Dict.get r.rooms id)) [
    | inl e ↦ absurd (known e)
    | inr (room, e) ↦ ground (arith, e, f)
  ]

  pub memory_nobody :
      Dict.get (members_of r id) user ≡ none
      → Memory.remove_member id user r ≡ (err (room_error not_member), r)
  unfolding Memory.remove_member
  memory_nobody f = elim (Option-cases (Dict.get r.rooms id)) [
    | inl e ↦ absurd (known e)
    | inr (room, e) ↦ ground (arith, e, f)
  ]
