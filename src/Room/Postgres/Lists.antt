-- ===== src/Room/Postgres/Lists.antt =====
-- The members of a room over Postgres and in memory: SQL leaves the order of members open that joined at
-- the same time, as `sort.Slice` does.
mod Tests
use mathlib.Core.List.{Perm, Memᴰ, Mem, Nodup, perm_ext_iff_of_Nodup}
use mathlib.Core.Logic.{∥∥₁_map}
use mathlib.Core.List.Perm
use go_microservices_chat.Prelude.{
  ℕ, All, String, ◌≡◌, ◌≢◌, refl, sym, ap, ◌∙◌, none, some, List, [], ◌∷◌, map, arith, ltb, length,
  length-map, inl, inr, Option-cases, take, map-take, take_of_length-le, leb, Bool-cases, ◌<◌,
}
use go_microservices_chat.Go.Dict
use go_microservices_chat.Go.Exec.{ok, ◌>>=◌, lift, pure}
use go_microservices_chat.Go.Int.{pos}
use go_microservices_chat.Go.Sort.{
  sort_slice, sort_slice-perm, sort_slice-All, sort_slice-IsSorted, length-sort_slice, IsSorted,
}
use go_microservices_chat.Go.Sort.Keys.{
  gtb, gtb-Commutes, ltb-Commutes, by_key, sorted_keys, length-perm,
}
use go_microservices_chat.Go.Sql.{text, time, int, Row, Pool, scan_all}
use go_microservices_chat.Room.Postgres.Tables.{room_row}
use go_microservices_chat.Room.Types.{Room, Member}
use go_microservices_chat.Room.Inmem as Memory
use go_microservices_chat.Room.Inmem.{
  InMemRepository, members_of, member_rows, earlier, newer, joined_rooms, apply_limit,
}
use go_microservices_chat.Room.Inmem.Invariant.{IsValid}
use go_microservices_chat.Room.Postgres.Joined.{Joins, All-each, joined_lem}
use go_microservices_chat.Room.Postgres as Postgres
use go_microservices_chat.Room.Postgres.{
  select_members, select_joined, select_count, scan_member, scan_room,
}

-- the columns that `select_members` asks for
abbrev pub member_row : Member → Row
member_row m = text m.user_id ∷ time m.joined_at ∷ []

-- The rows of `room_members` for a room, in any order: a query with ORDER BY gives them sorted, and
-- COUNT(*) their number. `IsUuid` says that a text is a UUID.
pub record MembersTable {S : Type 0} (pool : Pool S) (members_in : S → String → List Member)
    (IsUuid : String → Type 0) : Type 0 where
  pub lists :
      (id : String) (s : S)
      → IsUuid id
      → (l : List Member) × (pool.query select_members (text id ∷ []) s
          ≡ (ok (map member_row l), s))
        × Perm l (members_in s id)
        × IsSorted (by_key ltb ltb-Commutes (λ (m : Member). m.joined_at)) l
  pub counts :
      (id : String) (s : S)
      → IsUuid id
      → pool.query_row select_count (text id ∷ []) s
        ≡ (ok (int (pos (length (members_in s id))) ∷ []), s)

-- The rows of `rooms` that a user has joined, in any order: a query with ORDER BY and LIMIT gives the
-- first of them, newest first.
pub record JoinedTable {S : Type 0} (pool : Pool S) (rooms_with : S → String → List Room)
    (IsUuid : String → Type 0) : Type 0 where
  pub rooms :
      (user_id : String) (n : ℕ) (s : S)
      → IsUuid user_id
      → (l : List Room) × (pool.query select_joined (text user_id ∷ int (pos n) ∷ []) s
          ≡ (ok (map room_row (take n l)), s))
        × Perm l (rooms_with s user_id)
        × IsSorted (by_key gtb gtb-Commutes (λ (x : Room). x.created_at)) l

scan_rooms-map : (l : List Room) → scan_all scan_room (map room_row l) ≡ ok l
unfolding scan_all
scan_rooms-map [] = refl
scan_rooms-map (m ∷ l) = rw (scan_rooms-map l) refl

pub newest_first :
    (l : List Room)
    → IsSorted (by_key gtb gtb-Commutes (λ (x : Room). x.created_at)) (sort_slice newer l)
newest_first l = sort_slice-IsSorted newer (λ a b h. ground arith) (λ a b c h h'. ground arith) l

apply_limit-take : (l : List Room) (n : ℕ) → 0 < n → apply_limit l (pos n) ≡ take n l
unfolding apply_limit
apply_limit-take l n h = elim (Bool-cases (leb (length l) n)) [
  | inl e ↦ ground (arith, take_of_length-le n l (ground arith))
  | inr e ↦ ground arith
]

scan-map : (l : List Member) → scan_all scan_member (map member_row l) ≡ ok l
unfolding scan_all
scan-map [] = refl
scan-map (m ∷ l) = rw (scan-map l) refl

length-member_rows : (l : List (String × ℕ)) → length (member_rows l) ≡ length l
unfolding member_rows
length-member_rows [] = refl
length-member_rows (m ∷ l) = ground (arith, length-member_rows l)

pub earliest_first :
    (l : List Member)
    → IsSorted (by_key ltb ltb-Commutes (λ (m : Member). m.joined_at)) (sort_slice earlier l)
earliest_first l =
    sort_slice-IsSorted earlier (λ a b h. ground arith) (λ a b c h h'. ground arith) l

module _ {S : Type 0} (pool : Pool S) (members_in : S → String → List Member)
    (IsUuid : String → Type 0) (table : MembersTable pool members_in IsUuid) where
  -- For a room that exists, whose members are the same in both, the Postgres repository lists the
  -- members that the one in memory lists, sorted by the times at which they joined, and both count
  -- as many. The id of the room is a UUID.
  pub list_members_same :
      (id : String) (s : S) (r : InMemRepository)
      → IsUuid id
      → Dict.get r.members id ≢ none
      → Perm (members_in s id) (member_rows (members_of r id).entries)
      → (l l' : List Member) × (Postgres.list_members pool id s ≡ (ok l, s))
        × (Memory.list_members id r ≡ (ok l', r))
        × Perm l l'
        × (map (λ m. m.joined_at) l ≡ map (λ m. m.joined_at) l')
        × (Postgres.count_members pool id s ≡ (ok (length l), s))
        × (Memory.count_members id r ≡ (ok (length l), r))
  unfolding Postgres.list_members Postgres.count_members Memory.list_members Memory.count_members
      Dict.size ◌>>=◌
  list_members_same id s r uuid known same =
      let (l, at, perm, sorted) = table.lists id s uuid in
      let l' = sort_slice earlier (member_rows (members_of r id).entries) in
      let perm' : Perm l l' = Perm.trans perm (
        Perm.trans same
          (Perm.symm (sort_slice-perm earlier (member_rows (members_of r id).entries)))) in
      elim (Option-cases (Dict.get r.members id)) [
        | inl e ↦ absurd (known e)
        | inr (ms, e) ↦ (
          l,
          l',
          rw at (rw (scan-map l) refl),
          rw (e, Memory.list_members) refl,
          perm',
          sorted_keys ltb ltb-Commutes (λ (m : Member). m.joined_at) l l' perm' sorted
              (earliest_first _),
          rw (table.counts id s uuid) (ap (λ n. (ok n, s)) (sym (length-perm perm))),
          ap (λ n. (ok n, r))
              (sym (
                length-perm (Perm.trans perm same) ∙ length-member_rows (members_of r id).entries)),
        )
      ]

same_times :
    (l l' : List Room) (n : ℕ)
    → Perm l l'
    → IsSorted (by_key gtb gtb-Commutes (λ (x : Room). x.created_at)) l
    → IsSorted (by_key gtb gtb-Commutes (λ (x : Room). x.created_at)) l'
    → map (λ x. x.created_at) (take n l) ≡ map (λ x. x.created_at) (take n l')
same_times l l' n perm sorted sorted' =
    map-take (λ (x : Room). x.created_at) n l
    ∙ ap (take n)
        (sorted_keys gtb gtb-Commutes (λ (x : Room). x.created_at) l l' perm sorted sorted')
    ∙ sym (map-take (λ (x : Room). x.created_at) n l')

module _ {S : Type 0} (pool : Pool S) (rooms_with : S → String → List Room)
    (IsUuid : String → Type 0) (table : JoinedTable pool rooms_with IsUuid) where
  -- For a user who has joined the same rooms in both, each of them once in the table, and a limit that
  -- is not 0: the Postgres repository and the one in memory each list the first rooms, up to the limit,
  -- of a list, newest first, of the rooms with the user among their members. The list in memory has
  -- each of these rooms once and no other, the one of Postgres is a permutation of it, and the times in
  -- both answers are the same. The id of the user is a UUID, and the repository is valid.
  pub list_rooms_same :
      (user_id cursor : String) (n : ℕ) (s : S) (r : InMemRepository)
      → IsUuid user_id
      → 0 < n
      → IsValid r
      → Nodup (rooms_with s user_id)
      → ((x : Room) → Memᴰ x (rooms_with s user_id) → Joins r user_id x)
      → ((x : Room) → Joins r user_id x → Memᴰ x (rooms_with s user_id))
      → (l l' : List Room) × (Postgres.list_rooms_by_member pool user_id (pos n) cursor s
          ≡ (ok (take n l, ""), s))
        × (Memory.list_rooms_by_member user_id (pos n) cursor r ≡ (ok (take n l', ""), r))
        × Perm l l'
        × Nodup l'
        × All (Joins r user_id) l'
        × ((x : Room) → Joins r user_id x → Mem x l')
        × IsSorted newer l
        × IsSorted newer l'
        × (map (λ x. x.created_at) (take n l) ≡ map (λ x. x.created_at) (take n l'))
  unfolding Postgres.list_rooms_by_member Postgres.rooms_of Memory.list_rooms_by_member ◌>>=◌ pure
  list_rooms_same user_id cursor n s r uuid some' v once from to =
      let (l, at, perm, sorted) = table.rooms user_id n s uuid in
      let joined = joined_rooms r.rooms user_id r.members.entries in
      let (once', from', to') = joined_lem r user_id v in
      let same : Perm (rooms_with s user_id) joined = (perm_ext_iff_of_Nodup once once').1 (λ x. (
        λ m. ∥∥₁_map m (λ found. to' x (from x found)),
        λ m. ∥∥₁_map m (λ found. to x (from' x found)),
      )) in
      let l' = sort_slice newer joined in
      let in_order = Perm.symm (sort_slice-perm newer joined) in
      let perm' : Perm l l' = Perm.trans perm (Perm.trans same in_order) in
      (
        l,
        l',
        rw at (rw (scan_rooms-map (take n l)) refl),
        ap (λ x. (ok (x, ""), r)) (apply_limit-take l' n some'),
        perm',
        Perm.nodup in_order once',
        sort_slice-All newer (Joins r user_id) joined (All-each (Joins r user_id) joined from'),
        λ x h. (Perm.mem_iff in_order).0 ∣ to' x h ∣₁,
        sorted,
        newest_first joined,
        same_times l l' n perm' sorted (newest_first joined),
      )
