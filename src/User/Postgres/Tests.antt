-- ===== src/User/Postgres/Tests.antt =====
-- The theorem on Postgres over a table that is a map.
use go_microservices_chat.Prelude.{
  ℕ, String, ◌≡◌, refl, sym, ap, ◌∙◌, Bool, ◌||◌, true, false, Option, none, some, List, [], ◌∷◌,
  arith, ◌==◌, eq_iff, inl, inr, Option-cases, Bool-cases, if◌then◌else◌,
}
use go_microservices_chat.Go.Dict.{Dict, IsMap}
use go_microservices_chat.Go.Dict
use go_microservices_chat.Go.Dict.Laws.{
  find_nothing, find_something, empty-IsMap, put-IsMap, get-empty, get-put,
}
use go_microservices_chat.Go.Exec.{Result, ok, err}
use go_microservices_chat.Go.Sql.{
  Value, null, text, texts, time, int, bool, SqlError, coded, other, Row, Pool, null_string,
  unique_violation,
}
use go_microservices_chat.User.Types.{User}
use go_microservices_chat.User.Inmem.{new_in_mem_repository, inmem}
use go_microservices_chat.User.Postgres.{postgres, insert_user, select_users}
use go_microservices_chat.User.Postgres.Equivalence.{SameUsers, operation_same}
use go_microservices_chat.User.Postgres.Tables.{
  UsersTable, changed, found_row, insert_args, profile_args, creates, run,
}
use go_microservices_chat.User.Inmem.Invariant.{IsValid-new_in_mem_repository}

abbrev Table : Type 0
Table = (users : Dict User) × IsMap users

abbrev plain : Value → String
plain null = ""
plain (text s) = s
plain (texts l) = ""
plain (time t) = ""
plain (int n) = ""
plain (bool b) = ""

plain-null_string : (s : String) → plain (null_string s) ≡ s
unfolding null_string
plain-null_string s = elim (Bool-cases (s == "")) [
  | inl e ↦ rw e (sym ((eq_iff s "").0 e))
  | inr e ↦ rw e refl
]

-- UNIQUE(email) and UNIQUE(username)
abbrev taken : User → User → Bool
taken u w = w.email == u.email || w.username == u.username

abbrev inserted : Table → User → Option User → Result SqlError ℕ × Table
inserted s u none = (ok 1, (Dict.put s.0 u.id u, put-IsMap s.0 u.id u s.1))
inserted s u (some w) = (err (coded unique_violation "duplicate key"), s)

abbrev edited : Table → User → Option User → Result SqlError ℕ × Table
edited s u none = (ok 0, s)
edited s u (some old) =
    (ok 1, (Dict.put s.0 u.id (changed old u), put-IsMap s.0 u.id (changed old u) s.1))

abbrev insert_rows : List Value → Table → Result SqlError ℕ × Table
insert_rows
      (text id
        ∷ text email
        ∷ text username
        ∷ text hash
        ∷ text name
        ∷ avatar
        ∷ status
        ∷ time created
        ∷ time edited'
        ∷ [])
      s =
    let u : User = record {
      id = id;
      email = email;
      username = username;
      password_hash = hash;
      display_name = name;
      avatar_url = plain avatar;
      status_text = plain status;
      created_at = created;
      updated_at = edited';
    } in
    inserted s u (Dict.find (taken u) s.0)
insert_rows args s = (err (other "bad arguments"), s)

abbrev update_rows : List Value → Table → Result SqlError ℕ × Table
update_rows (text id ∷ text name ∷ avatar ∷ status ∷ time edited' ∷ []) s =
    let u : User = record {
      id = id;
      email = "";
      username = "";
      password_hash = "";
      display_name = name;
      avatar_url = plain avatar;
      status_text = plain status;
      created_at = 0;
      updated_at = edited';
    } in
    edited s u (Dict.get s.0 id)
update_rows args s = (err (other "bad arguments"), s)

abbrev selected : Bool → List Value → Table → Result SqlError Row
selected true (text id ∷ []) s = found_row (Dict.get s.0 id)
selected false (text email ∷ []) s = found_row (Dict.find (λ w. w.email == email) s.0)
selected by_id args s = err (other "bad arguments")

abbrev map_pool : Pool Table
map_pool = record {
  exec = λ sql args s. if sql == insert_user then insert_rows args s else update_rows args s;
  query = λ sql args s. (err (other "not used"), s);
  query_row = λ sql args s. (selected (sql == select_users "WHERE id = $1") args s, s);
}

abbrev row : Table → String → Option User
row s id = Dict.get s.0 id

insert_lem :
    (u : User) (s : Table) → insert_rows (insert_args u) s ≡ inserted s u (Dict.find (taken u) s.0)
insert_lem u s = rw (plain-null_string u.avatar_url) (rw (plain-null_string u.status_text) refl)

update_lem :
    (u : User) (s : Table) → update_rows (profile_args u) s ≡ edited s u (Dict.get s.0 u.id)
update_lem u s = elim (Option-cases (Dict.get s.0 u.id)) [
  | inl e ↦ rw e refl
  | inr (old, e) ↦
      rw e (rw (plain-null_string u.avatar_url) (rw (plain-null_string u.status_text) refl))
]

map_pool-table : UsersTable map_pool row (λ u s. Unit) (λ id. Unit)
map_pool-table = record {
  inserts = λ u s fits fresh apart.
      let free = find_nothing (taken u) s.0 s.1 (λ id w h.
        let (e, f) = apart id w h in
        ground (arith, eq_iff w.email u.email, eq_iff w.username u.username)) in
      (
        (Dict.put s.0 u.id u, put-IsMap s.0 u.id u s.1),
        insert_lem u s ∙ ap (inserted s u) free,
        λ id. get-put s.0 u.id id u,
      );
  refuses = λ u s id w fits at same.
      let (w', k, e, at', hit) = find_something (taken u) s.0 id w s.1 at (elim same [
        | inl e ↦ ground (arith, eq_iff w.email u.email)
        | inr e ↦ ground (arith, eq_iff w.username u.username)
      ]) in
      ("duplicate key", insert_lem u s ∙ ap (inserted s u) e);
  selects_id = λ id s uuid. refl;
  selects_email = λ email id s u at mail one.
      let (w, k, e, at', hit) =
        find_something (λ x. x.email == email) s.0 id u s.1 at ((eq_iff u.email email).1 mail) in
      ap (λ o. (found_row o, s)) (e ∙ ap some (one k w at' ((eq_iff w.email email).0 hit)));
  selects_nobody = λ email s apart.
      ap (λ o. (found_row o, s))
        (find_nothing (λ x. x.email == email) s.0 s.1
          (λ id w h. let e = apart id w h in ground (arith, eq_iff w.email email)));
  changes = λ u old s fits at. (
    (Dict.put s.0 u.id (changed old u), put-IsMap s.0 u.id (changed old u) s.1),
    update_lem u s ∙ ap (edited s u) at,
    λ id. get-put s.0 u.id id (changed old u),
  );
  changes_nobody = λ u s fits e. update_lem u s ∙ ap (edited s u) e;
}

abbrev ann : User
ann = record {
  id = "u1";
  email = "a@x";
  username = "ann";
  password_hash = "h";
  display_name = "Ann";
  avatar_url = "";
  status_text = "";
  created_at = 1;
  updated_at = 1;
}

abbrev no_rows_yet : Table
no_rows_yet = (Dict.empty, empty-IsMap)

operation_same_example :
    ((run (postgres map_pool) (creates ann) no_rows_yet).0
      ≡ (run inmem (creates ann) new_in_mem_repository).0)
    × SameUsers map_pool row
        (λ u s. Unit)
        (λ id. Unit)
        map_pool-table
        (run (postgres map_pool) (creates ann) no_rows_yet).1
        (run inmem (creates ann) new_in_mem_repository).1
operation_same_example =
    operation_same map_pool row (λ u s. Unit) (λ id. Unit) map_pool-table (creates ann) no_rows_yet
      new_in_mem_repository IsValid-new_in_mem_repository (λ id. refl) (tt, get-empty "u1")
