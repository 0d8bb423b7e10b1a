-- ===== src/User/Postgres/Batch/Tests.antt =====
-- The theorem on lists of ids, at a table with one user.
use mathlib.Core.Bool.{false≢true}
use mathlib.Core.List.{Memᴰ, Nodup, Nodup-nil, Nodup-cons, not-mem-nil, Perm}
use mathlib.Core.List.Memᴰ
use go_microservices_chat.Prelude.{
  String, ◌≡◌, refl, sym, ap, ◌∙◌, Bool, ◌||◌, true, false, some, List, [], ◌∷◌, map, arith, ◌==◌,
  eq_iff, inl, inr, Bool-cases, if◌then◌else◌,
}
use go_microservices_chat.Go.Dict
use go_microservices_chat.Go.Dict.Laws.{get-put, get-empty}
use go_microservices_chat.Go.Exec.{Result, ok, err}
use go_microservices_chat.Go.Sql.{Value, texts, SqlError, other, Row, Pool}
use go_microservices_chat.User.Inmem as Memory
use go_microservices_chat.User.Postgres as Postgres
use go_microservices_chat.User.Postgres.Batch.{BatchTable, get_users_by_ids_same}
use go_microservices_chat.User.Postgres.Tables.{user_row}
use go_microservices_chat.User.Tests.{alice, one_user, one_user-IsValid}
use go_microservices_chat.User.Types.{User}

names : List String → Bool
names [] = false
names (id ∷ ids) = id == "u1" || names ids

names_lem : (ids : List String) → names ids ≡ true → Memᴰ "u1" ids
unfolding names
names_lem [] h = absurd (false≢true h)
names_lem (id ∷ ids) h = elim (Bool-cases (id == "u1")) [
  | inl e ↦ Memᴰ.head (sym ((eq_iff id "u1").0 e))
  | inr e ↦ Memᴰ.tail (names_lem ids (ground (arith)))
]

named : (ids : List String) → Memᴰ "u1" ids → names ids ≡ true
unfolding names
named [] m = absurd (Memᴰ.not-nil m)
named (id ∷ ids) m = elim (Memᴰ.cases_cons m) [
  | inl e ↦ ground (arith, eq_iff id "u1")
  | inr later ↦ ground (arith, named ids later)
]

abbrev chosen : Bool → List User
chosen b = if b then alice ∷ [] else []

abbrev rows_of : List Value → Result SqlError (List Row)
unfolding names
rows_of (texts ids ∷ []) = ok (map user_row (chosen (names ids)))
rows_of args = err (other "bad arguments")

abbrev one_pool : Pool Unit
one_pool = record {
  exec = λ sql args s. (err (other "not used"), s);
  query = λ sql args s. (rows_of args, s);
  query_row = λ sql args s. (err (other "not used"), s);
}

only_alice : (u : User) → Dict.get one_user.users u.id ≡ some u → u ≡ alice
only_alice u at = ground (arith, get-put Dict.empty "u1" u.id alice, get-empty {V = User} u.id)

chosen_once : (b : Bool) → Nodup (chosen b)
chosen_once true = Nodup-cons.1 (not-mem-nil, Nodup-nil)
chosen_once false = Nodup-nil

at_u1 : Dict.get one_user.users "u1" ≡ some alice
at_u1 = ground (arith, get-put Dict.empty "u1" "u1" alice, eq_iff "u1" "u1")

chosen_asked :
    (ids : List String) (b : Bool) (u : User)
    → names ids ≡ b
    → Memᴰ u (chosen b)
    → Memᴰ u.id ids × (Dict.get one_user.users u.id ≡ some u)
chosen_asked ids true u e m = elim (Memᴰ.cases_cons m) [
  | inl same ↦ (
    Memᴰ.cast (ap (λ x. x.id) same) (names_lem ids e),
    ap (λ x. Dict.get one_user.users x.id) same ∙ at_u1 ∙ ap some (sym same),
  )
  | inr later ↦ absurd (Memᴰ.not-nil later)
]
chosen_asked ids false u e m = absurd (Memᴰ.not-nil m)

asked_chosen :
    (ids : List String) (b : Bool) (u : User)
    → names ids ≡ b
    → Memᴰ u.id ids
    → Dict.get one_user.users u.id ≡ some u
    → Memᴰ u (chosen b)
asked_chosen ids true u e m at = Memᴰ.head (only_alice u at)
asked_chosen ids false u e m at =
    let here : "u1" ≡ u.id = sym (ap (λ x. x.id) (only_alice u at)) in
    absurd (false≢true (sym e ∙ named ids (Memᴰ.cast here m)))

one_pool-table : BatchTable one_pool (λ s id. Dict.get one_user.users id) (λ id. Unit)
unfolding names
one_pool-table = record {
  selects = λ id ids s uuids. (
    chosen (names (id ∷ ids)),
    refl,
    chosen_once (names (id ∷ ids)),
    (λ u m. chosen_asked (id ∷ ids) (names (id ∷ ids)) u refl m),
    (λ u m at. asked_chosen (id ∷ ids) (names (id ∷ ids)) u refl m at),
  );
}

get_users_by_ids_same_example :
    (l l' : List User) × (Postgres.get_users_by_ids one_pool ("u1" ∷ []) tt ≡ (ok l, tt))
    × (Memory.get_users_by_ids ("u1" ∷ []) one_user ≡ (ok l', one_user))
    × Perm l l'
get_users_by_ids_same_example =
    get_users_by_ids_same one_pool (λ s id. Dict.get one_user.users id) (λ id. Unit) one_pool-table
      ("u1" ∷ []) tt one_user one_user-IsValid (λ id. refl) (tt, tt)
      (Nodup-cons.1 (not-mem-nil, Nodup-nil))
