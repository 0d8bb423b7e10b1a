-- ===== src/Room/Grpc/Enrichment.antt =====
-- The members of a room, with their profiles.
use go_microservices_chat.Prelude.{
  String, ◌≡◌, ◌≢◌, refl, ap, none, ◌⊎◌, inl, inr, Bool-cases, Option-cases, some, List, [], ◌∷◌,
  map, All, arith, ◌==◌, eq_iff,
}
use go_microservices_chat.Go.Dict.{Dict}
use go_microservices_chat.Go.Dict
use go_microservices_chat.Go.Dict.Laws.{get-put, get-empty}
use go_microservices_chat.Go.Exec.{ok, lift, convert_err, ◌>>=◌}
use go_microservices_chat.Auth.Context.{Context}
use go_microservices_chat.Chat.UserClient.{Profile, Client}
use go_microservices_chat.Room.Types.{Member}
use go_microservices_chat.Room.Repository.{Repository}
use go_microservices_chat.Room.Service
use go_microservices_chat.Room.Grpc.{
  RoomMember, by_id, enrich_members, member_to_proto, list_room_members,
}

abbrev pub Among : Profile → List Profile → Type 0
Among p [] = ⊥
Among p (q ∷ ps) = (q ≡ p) ⊎ Among p ps

-- the row has the name and the picture of a profile with the row's user id; it has neither when there is
-- no such profile
abbrev pub Named : List Profile → RoomMember → Type 0
Named profiles row =
    (((p : Profile) → Among p profiles → p.id ≢ row.user_id)
      × (row.display_name ≡ "")
      × (row.avatar_url ≡ ""))
    ⊎ ((p : Profile) × Among p profiles
        × (p.id ≡ row.user_id)
        × (row.display_name ≡ p.display_name)
        × (row.avatar_url ≡ p.avatar_url))

by_id_lem :
    (d : Dict Profile) (ps : List Profile) (k : String) (p : Profile)
    → Dict.get (by_id d ps) k ≡ some p
    → (Dict.get d k ≡ some p) ⊎ (Among p ps × (p.id ≡ k))
unfolding by_id
by_id_lem d [] k p e = inl e
by_id_lem d (q ∷ ps) k p e = elim (by_id_lem (Dict.put d q.id q) ps k p e) [
  | inr (among, same) ↦ inr (inr among, same)
  | inl found ↦ elim (Bool-cases (q.id == k)) [
    | inl hit ↦ inr (
      inl (ground (arith, get-put d q.id k q)),
      ground (arith, get-put d q.id k q, eq_iff q.id k),
    )
    | inr miss ↦ inl (ground (arith, get-put d q.id k q))
  ]
]

-- a user id that the map does not have is that of no profile
missing :
    (d : Dict Profile) (ps : List Profile) (k : String)
    → Dict.get (by_id d ps) k ≡ none
    → (Dict.get d k ≡ none) × ((p : Profile) → Among p ps → p.id ≢ k)
unfolding by_id
missing d [] k e = (e, λ p among. absurd among)
missing d (q ∷ ps) k e =
    let (before, others) = missing (Dict.put d q.id q) ps k e in
    elim (Bool-cases (q.id == k)) [
      | inl hit ↦ absurd (ground (arith, get-put d q.id k q))
      | inr miss ↦ (
        ground (arith, get-put d q.id k q),
        λ p among. elim among [
          | inl same ↦ λ e'. ground (arith, eq_iff q.id k, ap (λ x. x.id) same)
          | inr later ↦ others p later
        ],
      )
    ]

member_to_proto-Named :
    (profiles : List Profile) (m : Member)
    → Named profiles (member_to_proto (by_id Dict.empty profiles) m)
unfolding member_to_proto
member_to_proto-Named profiles m =
    elim (Option-cases (Dict.get (by_id Dict.empty profiles) m.user_id)) [
      | inl e ↦ rw e (inl ((missing Dict.empty profiles m.user_id e).1, refl, refl))
      | inr (p, e) ↦ elim (by_id_lem Dict.empty profiles m.user_id p e) [
        | inl none' ↦ absurd (ground (arith, get-empty {V = Profile} m.user_id))
        | inr (among, same) ↦ rw e (inr (p, among, same, refl, refl))
      ]
    ]

user_id_kept : (d : Dict Profile) (m : Member) → (member_to_proto d m).user_id ≡ m.user_id
unfolding member_to_proto
user_id_kept d m = elim (Option-cases (Dict.get d m.user_id)) [
  | inl e ↦ rw e refl
  | inr (p, e) ↦ rw e refl
]

rows_lem :
    (profiles : List Profile) (members : List Member)
    → let rows = map (member_to_proto (by_id Dict.empty profiles)) members in
      (map (λ x. x.user_id) rows ≡ map (λ x. x.user_id) members) × All (Named profiles) rows
rows_lem profiles [] = (refl, tt)
rows_lem profiles (m ∷ ms) =
    let (ids, named) = rows_lem profiles ms in
    (
      rw (user_id_kept (by_id Dict.empty profiles) m, ids) refl,
      (member_to_proto-Named profiles m, named),
    )

-- When the room and the profiles are found, the members come back in the order of the service, each
-- with the name and the picture of a profile with that very user id, or with neither when none of the
-- profiles has that user id.
pub list_room_members-Named :
    {S : Type 0} (repo : Repository S) (client : Client) (ctx : Context) (room_id : String)
    (s s' : S) (members : List Member) (profiles : List Profile)
    → Service.list_room_members repo room_id s ≡ (ok members, s')
    → client ctx (map (λ x. x.user_id) members) ≡ ok profiles
    → (rows : List RoomMember) × (list_room_members repo client ctx room_id s ≡ (ok (rows, ""), s'))
      × (map (λ x. x.user_id) rows ≡ map (λ x. x.user_id) members)
      × All (Named profiles) rows
unfolding list_room_members enrich_members convert_err lift ◌>>=◌
list_room_members-Named repo client ctx room_id s s' [] profiles e f = ([], rw e refl, refl, tt)
list_room_members-Named repo client ctx room_id s s' (m ∷ ms) profiles e f = (
  map (member_to_proto (by_id Dict.empty profiles)) (m ∷ ms),
  rw (e, f) refl,
  (rows_lem profiles (m ∷ ms)).0,
  (rows_lem profiles (m ∷ ms)).1,
)
