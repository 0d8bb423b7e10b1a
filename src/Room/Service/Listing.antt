-- ===== src/Room/Service/Listing.antt =====
-- The lists of members and of rooms.
use Prim.Native.Char.{Char}
use mathlib.Core.List.{Perm}
use go_microservices_chat.Prelude.{
  ℕ, ◌≤◌, String, ◌≡◌, refl, ◌||◌, some, List, [], ◌∷◌, arith, inl, inr, Option-cases, Bool-cases,
  All, All-take, length, ltb, length-take, leb,
}
use go_microservices_chat.Go.Dict.{Dict, IsMap}
use go_microservices_chat.Go.Dict
use go_microservices_chat.Go.Dict.Laws.{get-entries}
use go_microservices_chat.Go.Exec.{ok, ◌>>=◌}
use go_microservices_chat.Go.Int.{ℤ, pos, negsuc}
use go_microservices_chat.Go.Sort.{
  sort_slice, sort_slice-perm, sort_slice-All, sort_slice-IsSorted, IsSorted, IsSorted-take,
  length-sort_slice,
}
use go_microservices_chat.Go.Time.{Time}
use go_microservices_chat.Auth.Context.{Context, requester_id}
use go_microservices_chat.Room.Types.{Room, Member}
use go_microservices_chat.Room.Inmem
use go_microservices_chat.Room.Inmem.{
  InMemRepository, inmem, members_of, member_rows, earlier, newer, joined_rooms, apply_limit,
}
use go_microservices_chat.Room.Inmem.Invariant.{IsValid, stored_members}
use go_microservices_chat.Room.Service.{effective_limit, list_room_members, list_my_rooms, get_room}

-- The limit that a request asks for becomes a number from 1 to 200, and one in that range is kept.
pub effective_limit_lem :
    (limit : ℤ)
    → (n : ℕ) × (effective_limit limit ≡ pos n)
      × (1 ≤ n)
      × (n ≤ 200)
      × ((m : ℕ) → limit ≡ pos m → 1 ≤ m → m ≤ 200 → n ≡ m)
unfolding effective_limit
effective_limit_lem (negsuc n) =
    (50, refl, omega arith, omega arith, λ m same low high. ground arith)
effective_limit_lem (pos n) = elim (Bool-cases (leb n 0)) [
  | inl e ↦ (50, ground arith, omega arith, omega arith, λ m same low high. ground arith)
  | inr e ↦ elim (Bool-cases (ltb 200 n)) [
    | inl f ↦ (200, ground arith, omega arith, omega arith, λ m same low high. ground arith)
    | inr f ↦ (n, ground arith, ground arith, ground arith, λ m same low high. ground arith)
  ]
]

length-member_rows : (l : List (String × Time)) → length (member_rows l) ≡ length l
unfolding member_rows
length-member_rows [] = refl
length-member_rows (x ∷ l) = omega (arith, length-member_rows l)

earlier-IsSorted : (l : List Member) → IsSorted earlier (sort_slice earlier l)
earlier-IsSorted l =
    sort_slice-IsSorted earlier (λ a b h. ground arith) (λ a b c h h'. ground arith) l

newer-IsSorted : (l : List Room) → IsSorted newer (sort_slice newer l)
newer-IsSorted l = sort_slice-IsSorted newer (λ a b h. ground arith) (λ a b c h h'. ground arith) l

-- the caller is a member of the room
abbrev pub Joined : String → InMemRepository → Room → Type 0
Joined user_id r w = (at : Time) × (Dict.get (members_of r w.id) user_id ≡ some at)

joined_rooms-All :
    (user_id : String) (r : InMemRepository)
    → IsValid r
    → (l : List (String × Dict Time)) → All (λ row. Dict.get r.members row.0 ≡ some row.1) l
    → All (Joined user_id r) (joined_rooms r.rooms user_id l)
unfolding joined_rooms
joined_rooms-All user_id r v [] h = tt
joined_rooms-All user_id r v ((k, ms) ∷ l) h =
    let rest = joined_rooms-All user_id r v l h.1 in
    elim (Option-cases (Dict.get ms user_id)) [
      | inl e ↦ rw (e, joined_rooms) rest
      | inr (at, e) ↦ elim (Option-cases (Dict.get r.rooms k)) [
        | inl f ↦ absurd (v.has_room k ms h.0 f)
        | inr (w, f) ↦
            rw (e, joined_rooms) (rw (f, joined_rooms) ((at, rw (v.at_id k w f, h.0, e)), rest))
      ]
    ]

apply_limit-All :
    (P : Room → Type 0) (l : List Room) (n : ℕ)
    → 1 ≤ n
    → IsSorted newer l
    → All P l
    → All P (apply_limit l (pos n))
      × IsSorted newer (apply_limit l (pos n))
      × (length (apply_limit l (pos n)) ≤ n)
unfolding apply_limit
apply_limit-All P l n h s p = elim (Bool-cases (leb n 0 || leb (length l) n)) [
  | inl e ↦ rw e (p, s, ground arith)
  | inr e ↦ rw e (All-take P n l p, IsSorted-take newer n l s, omega (arith, length-take n l))
]

module _ (lower : Char → Char) where
  -- The members of a room that exists are listed without error, each exactly once, in the order in
  -- which they joined, and `GetRoom` counts as many.
  pub list_room_members_lem :
      (room_id : String) (room : Room) (r : InMemRepository)
      → IsValid r
      → Dict.get r.rooms room_id ≡ some room
      → (rows : List Member) × (list_room_members (inmem lower) room_id r ≡ (ok rows, r))
        × Perm rows (member_rows (members_of r room_id).entries)
        × IsSorted earlier rows
        × (get_room (inmem lower) room_id r ≡ (ok (room, length rows), r))
  unfolding list_room_members get_room Inmem.get_room Inmem.list_members Inmem.count_members
      Dict.size ◌>>=◌
  list_room_members_lem room_id room r v e =
      let (ms, f) = stored_members r room_id room v e in
      let rows = member_rows ms.entries in
      (
        sort_slice earlier rows,
        ground arith,
        rw f (sort_slice-perm earlier rows),
        earlier-IsSorted rows,
        ground (arith, length-sort_slice earlier rows, length-member_rows ms.entries),
      )

  -- A known caller gets at most 200 rooms, newest first, and is a member of each.
  pub list_my_rooms_lem :
      (ctx : Context) (limit : ℤ) (cursor user_id : String) (r : InMemRepository)
      → IsValid r
      → requester_id ctx ≡ some user_id
      → (rooms : List Room) × (list_my_rooms (inmem lower) ctx limit cursor r ≡ (ok (rooms, ""), r))
        × (length rooms ≤ 200)
        × IsSorted newer rooms
        × All (Joined user_id r) rooms
  unfolding list_my_rooms Inmem.list_rooms_by_member
  list_my_rooms_lem ctx limit cursor user_id r v me =
      let (n, e, low, high, _) = effective_limit_lem limit in
      let all = joined_rooms r.rooms user_id r.members.entries in
      let (joined, sorted, short) =
        apply_limit-All (Joined user_id r) (sort_slice newer all) n low (newer-IsSorted all) (
          sort_slice-All newer (Joined user_id r) all (
            joined_rooms-All user_id r v r.members.entries
              (get-entries r.members v.members_map))) in
      (
        apply_limit (sort_slice newer all) (pos n),
        rw (me, list_my_rooms) (rw e),
        omega arith,
        sorted,
        joined,
      )
