-- ===== src/Room/Postgres/Lists/Tests.antt =====
-- The theorems on lists over tables that are lists, for one room with one member.
use mathlib.Core.List.{Perm, Memᴰ, Mem, Nodup, Nodup-nil, Nodup-cons}
use mathlib.Core.List.Memᴰ
use mathlib.Core.HLevel.{⊥_prop}
use mathlib.Core.Logic.{∥∥₁_elim}
use mathlib.Core.Option.{some-injective}
use mathlib.Core.Path.{subst}
use mathlib.Core.List.Perm
use go_microservices_chat.Prelude.{
  sym, All, inl, inr, Bool-cases, ◌==◌, ◌≡◌, ◌≢◌, refl, none, List, [], ◌∷◌, map, take, length,
  arith,
}
use go_microservices_chat.Go.Dict
use go_microservices_chat.Go.Dict.Laws.{get-put, get-empty}
use go_microservices_chat.Go.Exec.{Result, ok, err}
use go_microservices_chat.Go.Int.{pos}
use go_microservices_chat.Go.Sort.{sort_slice, sort_slice-perm, IsSorted}
use go_microservices_chat.Go.Sql.{Value, text, int, SqlError, other, Row, Pool}
use go_microservices_chat.Room.Inmem as Memory
use go_microservices_chat.Room.Inmem.{InMemRepository, members_of, member_rows, earlier, newer}
use go_microservices_chat.Room.Tests.{lobby, with_lobby, with_lobby-IsValid}
use go_microservices_chat.Room.Postgres.Joined.{Joins}
use go_microservices_chat.Room.Postgres as Postgres
use go_microservices_chat.Room.Postgres.Lists.{
  MembersTable, JoinedTable, member_row, earliest_first, newest_first, list_members_same,
  list_rooms_same,
}
use go_microservices_chat.Room.Postgres.Tables.{room_row}
use go_microservices_chat.Room.Types.{Room, Member}

-- the rows of `room_members` and of `rooms`, of one room and one user
abbrev Rows : Type 0
Rows = List Member × List Room

abbrev selected : List Value → Rows → Result SqlError (List Row)
selected (text id ∷ []) s = ok (map member_row (sort_slice earlier s.0))
selected (text id ∷ int (pos n) ∷ []) s = ok (map room_row (take n (sort_slice newer s.1)))
selected args s = err (other "bad arguments")

abbrev list_pool : Pool Rows
list_pool = record {
  exec = λ sql args s. (err (other "not used"), s);
  query = λ sql args s. (selected args s, s);
  query_row = λ sql args s. (ok (int (pos (length s.0)) ∷ []), s);
}

members_table : MembersTable list_pool (λ s id. s.0) (λ id. Unit)
members_table = record {
  lists =
      λ id s uuid. (sort_slice earlier s.0, refl, sort_slice-perm earlier s.0, earliest_first s.0);
  counts = λ id s uuid. refl;
}

joined_table : JoinedTable list_pool (λ s id. s.1) (λ id. Unit)
joined_table = record {
  rooms =
      λ user_id n s uuid. (sort_slice newer s.1, refl, sort_slice-perm newer s.1, newest_first s.1);
}

-- the room `r1` with the member `u1`
abbrev memory : InMemRepository
memory = with_lobby

abbrev rows : Rows
rows = (record { user_id = "u1"; joined_at = 6 } ∷ [], lobby ∷ [])

known : Dict.get memory.members "r1" ≢ none
unfolding Dict.get Dict.put Dict.empty
known e = ground arith

same_members : Perm rows.0 (member_rows (members_of memory "r1").entries)
unfolding Dict.get Dict.put Dict.empty member_rows
same_members = Perm.rfl

Joins-lobby : Joins memory "u1" lobby
unfolding Dict.get Dict.put Dict.empty
Joins-lobby = (refl, (6, refl))

only_room : (x : Room) → Joins memory "u1" x → Memᴰ x rows.1
only_room x (stored, member) = elim (Bool-cases ("r1" == x.id)) [
  | inl e ↦ Memᴰ.head (some-injective x lobby (ground (arith, get-put Dict.empty "r1" x.id lobby)))
  | inr e ↦ absurd (ground (arith, get-put Dict.empty "r1" x.id lobby, get-empty {V = Room} x.id))
]

no_other : (x : Room) → Memᴰ x rows.1 → Joins memory "u1" x
no_other x m = elim (Memᴰ.cases_cons m) [
  | inl same ↦ subst (Joins memory "u1") (sym same) Joins-lobby
  | inr more ↦ absurd (Memᴰ.not-nil more)
]

once : Nodup rows.1
once = Nodup-cons.1 ((λ m. ∥∥₁_elim m ⊥_prop (λ found. Memᴰ.not-nil found)), Nodup-nil)

list_members_same_example :
    (l l' : List Member) × (Postgres.list_members list_pool "r1" rows ≡ (ok l, rows))
    × (Memory.list_members "r1" memory ≡ (ok l', memory))
    × Perm l l'
    × (map (λ m. m.joined_at) l ≡ map (λ m. m.joined_at) l')
    × (Postgres.count_members list_pool "r1" rows ≡ (ok (length l), rows))
    × (Memory.count_members "r1" memory ≡ (ok (length l), memory))
list_members_same_example =
    list_members_same list_pool (λ s id. s.0) (λ id. Unit) members_table "r1" rows memory tt known
      same_members

list_rooms_same_example :
    (l l' : List Room) × (Postgres.list_rooms_by_member list_pool "u1" (pos 20) "" rows
      ≡ (ok (take 20 l, ""), rows))
    × (Memory.list_rooms_by_member "u1" (pos 20) "" memory ≡ (ok (take 20 l', ""), memory))
    × Perm l l'
    × Nodup l'
    × All (Joins memory "u1") l'
    × ((x : Room) → Joins memory "u1" x → Mem x l')
    × IsSorted newer l
    × IsSorted newer l'
    × (map (λ x. x.created_at) (take 20 l) ≡ map (λ x. x.created_at) (take 20 l'))
list_rooms_same_example =
    list_rooms_same list_pool (λ s id. s.1) (λ id. Unit) joined_table "u1" "" 20 rows memory tt
      (omega arith) with_lobby-IsValid once no_other only_room
