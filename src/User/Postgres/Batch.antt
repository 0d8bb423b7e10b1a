-- ===== src/User/Postgres/Batch.antt =====
-- `GetUsersByIDs` over Postgres and in memory. SQL leaves the order of the rows open, and selects a row
-- once however often its id is asked for.
mod Tests
use mathlib.Core.List.{Memᴰ, Nodup, Nodup-nil, Nodup-cons, Perm, perm_ext_iff_of_Nodup}
use mathlib.Core.List.Memᴰ
use mathlib.Core.List.Perm
use mathlib.Core.Option.{some-injective, some-ne-none}
use mathlib.Core.Path.{subst}
use mathlib.Core.Logic.{∥∥₁_map}
use go_microservices_chat.Prelude.{
  String, ◌≡◌, refl, sym, ap, ◌∙◌, Option, none, some, List, [], ◌∷◌, All, map, inl, inr,
  Option-cases,
}
use go_microservices_chat.Go.Dict
use go_microservices_chat.Go.Dict.{Dict}
use go_microservices_chat.Go.Exec.{ok, ◌>>=◌}
use go_microservices_chat.Go.Sql.{texts, Pool, scan_all}
use go_microservices_chat.User.Types.{User}
use go_microservices_chat.User.Inmem as Memory
use go_microservices_chat.User.Inmem.{InMemRepository, users_at}
use go_microservices_chat.User.Inmem.Invariant.{IsValid, UsersValid}
use go_microservices_chat.User.Postgres as Postgres
use go_microservices_chat.User.Postgres.{select_users, scan_user}
use go_microservices_chat.User.Postgres.Tables.{user_row}

-- A query `WHERE id = ANY($1)` gives, in any order, the rows under those ids, each of them once.
pub record BatchTable {S : Type 0} (pool : Pool S) (row : S → String → Option User)
    (IsUuid : String → Type 0) : Type 0 where
  pub selects :
      (id : String) (ids : List String) (s : S)
      → All IsUuid (id ∷ ids)
      → (l : List User) × (pool.query (select_users "WHERE id = ANY($1)") (texts (id ∷ ids) ∷ []) s
          ≡ (ok (map user_row l), s))
        × Nodup l
        × ((u : User) → Memᴰ u l → Memᴰ u.id (id ∷ ids) × (row s u.id ≡ some u))
        × ((u : User) → Memᴰ u.id (id ∷ ids) → row s u.id ≡ some u → Memᴰ u l)

scan_users-map : (l : List User) → scan_all scan_user (map user_row l) ≡ ok l
unfolding scan_all
scan_users-map [] = refl
scan_users-map (m ∷ l) = rw (scan_users-map l) refl

module _ (users : Dict User) where
  skipped :
      (id : String) (ids : List String)
      → Dict.get users id ≡ none
      → users_at users (id ∷ ids) ≡ users_at users ids
  unfolding users_at
  skipped id ids e = rw (e, users_at) refl

  listed :
      (id : String) (ids : List String) (w : User)
      → Dict.get users id ≡ some w
      → users_at users (id ∷ ids) ≡ w ∷ users_at users ids
  unfolding users_at
  listed id ids w e = rw (e, users_at) refl

  module _ (v : UsersValid users) where
    in_users_at :
        (u : User) (ids : List String)
        → Memᴰ u (users_at users ids)
        → Memᴰ u.id ids × (Dict.get users u.id ≡ some u)
    unfolding users_at
    in_users_at u [] m = absurd (Memᴰ.not-nil m)
    in_users_at u (id ∷ ids) m = elim (Option-cases (Dict.get users id)) [
      | inl e ↦
          let (m', at) = in_users_at u ids (subst (Memᴰ u) (skipped id ids e) m) in
          (Memᴰ.tail m', at)
      | inr (w, e) ↦ elim (Memᴰ.cases_cons (subst (Memᴰ u) (listed id ids w e) m)) [
        | inl same ↦
            let here : u.id ≡ id = ap (λ x. x.id) same ∙ v.at_id id w e in
            (Memᴰ.head here, ap (Dict.get users) here ∙ e ∙ ap some (sym same))
        | inr later ↦ let (m', at) = in_users_at u ids later in (Memᴰ.tail m', at)
      ]
    ]

    to_users_at :
        (u : User) (ids : List String)
        → Memᴰ u.id ids
        → Dict.get users u.id ≡ some u
        → Memᴰ u (users_at users ids)
    unfolding users_at
    to_users_at u [] m at = absurd (Memᴰ.not-nil m)
    to_users_at u (id ∷ ids) m at = elim (Option-cases (Dict.get users id)) [
      | inl e ↦ elim (Memᴰ.cases_cons m) [
        | inl same ↦ absurd (some-ne-none u (sym at ∙ ap (Dict.get users) same ∙ e))
        | inr later ↦ subst (Memᴰ u) (sym (skipped id ids e)) (to_users_at u ids later at)
      ]
      | inr (w, e) ↦ subst (Memᴰ u) (sym (listed id ids w e)) (elim (Memᴰ.cases_cons m) [
        | inl same ↦ Memᴰ.head (some-injective u w (sym at ∙ ap (Dict.get users) same ∙ e))
        | inr later ↦ Memᴰ.tail (to_users_at u ids later at)
      ])
    ]

    users_at-Nodup : (ids : List String) → Nodup ids → Nodup (users_at users ids)
    unfolding users_at
    users_at-Nodup [] d = Nodup-nil
    users_at-Nodup (id ∷ ids) d = elim (Option-cases (Dict.get users id)) [
      | inl e ↦ subst Nodup (sym (skipped id ids e)) (users_at-Nodup ids (Nodup-cons.0 d).1)
      | inr (w, e) ↦ subst Nodup (sym (listed id ids w e)) (
          Nodup-cons.1 (
            (λ m. (Nodup-cons.0 d).0 (
                ∥∥₁_map m (λ found.
                  let (m', at) = in_users_at w ids found in Memᴰ.cast (sym (v.at_id id w e)) m'))),
            users_at-Nodup ids (Nodup-cons.0 d).1,
          ))
    ]

module _ {S : Type 0} (pool : Pool S) (row : S → String → Option User) (IsUuid : String → Type 0)
    (table : BatchTable pool row IsUuid) where
  -- Over the same users, the Postgres repository finds by a list of ids the users that the one in memory
  -- finds, in some order. The ids are UUIDs, and none is asked for twice.
  pub get_users_by_ids_same :
      (ids : List String) (s : S) (r : InMemRepository)
      → IsValid r
      → ((id : String) → row s id ≡ Dict.get r.users id)
      → All IsUuid ids
      → Nodup ids
      → (l l' : List User) × (Postgres.get_users_by_ids pool ids s ≡ (ok l, s))
        × (Memory.get_users_by_ids ids r ≡ (ok l', r))
        × Perm l l'
  unfolding Postgres.get_users_by_ids Memory.get_users_by_ids users_at ◌>>=◌
  get_users_by_ids_same [] s r v same uuids d = ([], [], refl, refl, Perm.refl [])
  get_users_by_ids_same (id ∷ ids) s r v same uuids d =
      let (l, at, once, from, to) = table.selects id ids s uuids in
      (
        l,
        users_at r.users (id ∷ ids),
        rw at (rw (scan_users-map l) refl),
        refl,
        (perm_ext_iff_of_Nodup once (users_at-Nodup r.users v.users (id ∷ ids) d)).1 (λ u. (
          λ m. ∥∥₁_map m (λ found.
              let (asked, there) = from u found in
              to_users_at r.users v.users u (id ∷ ids) asked (sym (same u.id) ∙ there)),
          λ m. ∥∥₁_map m (λ found.
              let (asked, there) = in_users_at r.users v.users u (id ∷ ids) found in
              to u asked (same u.id ∙ there)),
        )),
      )
