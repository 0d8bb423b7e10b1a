-- ===== src/Room/Postgres/Effects.antt =====
-- What the Postgres repository makes of the answers of the database.
use go_microservices_chat.Prelude.{String, ◌≡◌, refl, [], ◌∷◌}
use go_microservices_chat.Go.Exec.{ok, err, ◌>>=◌}
use go_microservices_chat.Go.Sql.{coded, text, Pool, unique_violation}
use go_microservices_chat.Chat.Errors.{room_error, already_member, not_member}
use go_microservices_chat.Room.Types.{Room}
use go_microservices_chat.Room.Postgres as Postgres
use go_microservices_chat.Room.Postgres.{
  postgres, insert_room, select_room, insert_member, delete_member, select_is_member,
}
use go_microservices_chat.Room.Postgres.Tables.{room_row}

module _ {S : Type 0} (pool : Pool S) where
  pub pg_create :
      (room : Room) (s s' : S)
      → pool.exec insert_room (room_row room) s ≡ (ok 1, s')
      → Postgres.create_room pool room s ≡ (ok tt, s')
  unfolding Postgres.create_room ◌>>=◌
  pg_create room s s' e = rw e refl

  pub pg_add :
      (id user : String) (s s' : S)
      → pool.exec insert_member (text id ∷ text user ∷ []) s ≡ (ok 1, s')
      → Postgres.add_member pool id user s ≡ (ok tt, s')
  unfolding Postgres.add_member ◌>>=◌
  pg_add id user s s' e = rw e refl

  pub pg_refuse :
      (id user msg : String) (s : S)
      → pool.exec insert_member (text id ∷ text user ∷ []) s ≡ (err (coded unique_violation msg), s)
      → Postgres.add_member pool id user s ≡ (err (room_error already_member), s)
  unfolding Postgres.add_member ◌>>=◌
  pg_refuse id user msg s e = rw e refl

  pub pg_remove :
      (id user : String) (s s' : S)
      → pool.exec delete_member (text id ∷ text user ∷ []) s ≡ (ok 1, s')
      → Postgres.remove_member pool id user s ≡ (ok tt, s')
  unfolding Postgres.remove_member ◌>>=◌
  pg_remove id user s s' e = rw e refl

  pub pg_nobody :
      (id user : String) (s : S)
      → pool.exec delete_member (text id ∷ text user ∷ []) s ≡ (ok 0, s)
      → Postgres.remove_member pool id user s ≡ (err (room_error not_member), s)
  unfolding Postgres.remove_member ◌>>=◌
  pg_nobody id user s e = rw e refl
