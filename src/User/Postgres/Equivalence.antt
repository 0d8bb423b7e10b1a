-- ===== src/User/Postgres/Equivalence.antt =====
-- The Postgres repository of users, over a table that behaves as the documentation of PostgreSQL says,
-- against the repository in memory.
use mathlib.Core.Option.{some-injective}
use go_microservices_chat.Prelude.{
  String, ◌≡◌, refl, sym, ap, ◌∙◌, ◌⊎◌, true, Option, none, some, arith, ◌==◌, eq_iff, inl, inr,
  Option-cases, Bool-cases,
}
use go_microservices_chat.Go.Dict
use go_microservices_chat.Go.Dict.Laws.{get-put, find_hit, find_miss}
use go_microservices_chat.Go.Exec.{◌>>=◌}
use go_microservices_chat.Go.Sql.{Pool}
use go_microservices_chat.User.Types.{User}
use go_microservices_chat.User.Inmem as Memory
use go_microservices_chat.User.Inmem.{InMemRepository, inmem, clashes}
use go_microservices_chat.User.Inmem.Invariant.{IsValid}
use go_microservices_chat.User.Postgres as Postgres
use go_microservices_chat.User.Postgres.{postgres, insert_user, select_users, set_profile}
use go_microservices_chat.User.Postgres.Tables.{
  UsersTable, changed, Operation, creates, finds_id, finds_email, edits, run,
}

clash : (u w : User) → clashes u w ≡ true → (w.email ≡ u.email) ⊎ (w.username ≡ u.username)
clash u w h = elim (Bool-cases (w.email == u.email)) [
  | inl e ↦ inl ((eq_iff w.email u.email).0 e)
  | inr e ↦ inr ((eq_iff w.username u.username).0 (ground arith))
]

module _ {S : Type 0} (pool : Pool S) (row : S → String → Option User) (Fits : User → S → Type 0)
    (IsUuid : String → Type 0) (table : UsersTable pool row Fits IsUuid) where
  -- the same users under the same ids
  abbrev pub SameUsers : S → InMemRepository → Type 0
  SameUsers s r = (id : String) → row s id ≡ Dict.get r.users id

  -- a new user has a new id
  abbrev pub Allowed : S → InMemRepository → Operation → Type 0
  Allowed s r (creates u) = Fits u s × (Dict.get r.users u.id ≡ none)
  Allowed s r (finds_id id) = IsUuid id
  Allowed s r (finds_email email) = Unit
  Allowed s r (edits u) = Fits u s

  abbrev pub AnswersMatch : Operation → S → InMemRepository → Type 0
  AnswersMatch op s r =
      ((run (postgres pool) op s).0 ≡ (run inmem op r).0)
      × SameUsers (run (postgres pool) op s).1 (run inmem op r).1

  found_id :
      (id : String) (s : S) (o : Option User)
      → IsUuid id
      → row s id ≡ o
      → Postgres.get_user_by_id pool id s ≡ (Memory.found o, s)
  unfolding Postgres.get_user_by_id ◌>>=◌
  found_id id s none uuid e = rw (table.selects_id id s uuid) (rw e refl)
  found_id id s (some u) uuid e = rw (table.selects_id id s uuid) (rw e refl)

  agree_id :
      (id : String) (s : S) (r : InMemRepository)
      → IsUuid id
      → SameUsers s r
      → AnswersMatch (finds_id id) s r
  unfolding Memory.get_user_by_id
  agree_id id s r uuid same = rw (found_id id s (Dict.get r.users id) uuid (same id)) (refl, same)

  agree_create :
      (u : User) (s : S) (r : InMemRepository)
      → IsValid r
      → Fits u s
      → Dict.get r.users u.id ≡ none
      → SameUsers s r
      → AnswersMatch (creates u) s r
  unfolding Postgres.create_user Memory.create_user ◌>>=◌
  agree_create u s r v fits fresh same = elim (Option-cases (Dict.find (clashes u) r.users)) [
    | inl e ↦
        let (s', at, after) = table.inserts u s fits (same u.id ∙ fresh) (λ id w h.
          let miss = find_miss (clashes u) r.users id w e (sym (same id) ∙ h) in
          (
            λ p. ground (arith, eq_iff w.email u.email),
            λ p. ground (arith, eq_iff w.username u.username),
          )) in
        rw (at, Postgres.create_user)
          (rw (e, Memory.create_user)
            (refl, λ id. ground (arith, after id, same id, get-put r.users u.id id u)))
    | inr (w, e) ↦
        let (k, at, hit) = find_hit (clashes u) r.users w v.users.is_map e in
        let (msg, f) = table.refuses u s k w fits (same k ∙ at) (clash u w hit) in
        rw (f, Postgres.create_user) (rw (e, Memory.create_user) (refl, same))
  ]

  agree_email :
      (email : String) (s : S) (r : InMemRepository)
      → IsValid r
      → SameUsers s r
      → AnswersMatch (finds_email email) s r
  unfolding Postgres.get_user_by_email Memory.get_user_by_email ◌>>=◌
  agree_email email s r v same = elim (Option-cases (Dict.find (λ w. w.email == email) r.users)) [
    | inl e ↦
        let nobody = table.selects_nobody email s (λ id w h p. absurd (
          ground (
            arith,
            eq_iff w.email email,
            find_miss (λ x. x.email == email) r.users id w e (sym (same id) ∙ h),
          ))) in
        rw (nobody, Postgres.get_user_by_email) (rw (e, Memory.get_user_by_email) (refl, same))
    | inr (u, e) ↦
        let (k, at, hit) = find_hit (λ w. w.email == email) r.users u v.users.is_map e in
        let mail = (eq_iff u.email email).0 hit in
        let one = table.selects_email email k s u (same k ∙ at) mail (λ j w h p.
          let key = v.users.email_unique j k w u (sym (same j) ∙ h) at (p ∙ sym mail) in
          some-injective w u (sym h ∙ ap (row s) key ∙ same k ∙ at)) in
        rw (one, Postgres.get_user_by_email) (rw (e, Memory.get_user_by_email) (refl, same))
  ]

  agree_edit :
      (u : User) (s : S) (r : InMemRepository)
      → Fits u s
      → SameUsers s r
      → AnswersMatch (edits u) s r
  unfolding Postgres.update_user Memory.update_user ◌>>=◌
  agree_edit u s r fits same = elim (Option-cases (Dict.get r.users u.id)) [
    | inl e ↦
        rw (table.changes_nobody u s fits (same u.id ∙ e), Postgres.update_user)
          (rw (e, Memory.update_user) (refl, same))
    | inr (old, e) ↦
        let (s', at, after) = table.changes u old s fits (same u.id ∙ e) in
        rw (at, Postgres.update_user)
          (rw (e, Memory.update_user)
            (
              refl,
              λ id. ground (arith, after id, same id, get-put r.users u.id id (changed old u)),
            ))
  ]

  -- The Postgres repository implements the one in memory: where both hold the same users, creating a
  -- user, finding one by id or by email and editing one get the same answer from both, errors included,
  -- and both hold the same users afterwards. The rows written fit the columns of the table, a new user
  -- has a new id, an id that is looked up is a UUID, and the users in memory are valid.
  pub operation_same :
      (op : Operation) (s : S) (r : InMemRepository)
      → IsValid r
      → SameUsers s r
      → Allowed s r op
      → ((run (postgres pool) op s).0 ≡ (run inmem op r).0)
        × SameUsers (run (postgres pool) op s).1 (run inmem op r).1
  operation_same (creates u) s r v same a = agree_create u s r v a.0 a.1 same
  operation_same (finds_id id) s r v same a = agree_id id s r a same
  operation_same (finds_email email) s r v same a = agree_email email s r v same
  operation_same (edits u) s r v same a = agree_edit u s r a same
