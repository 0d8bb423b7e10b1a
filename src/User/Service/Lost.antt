-- ===== src/User/Service/Lost.antt =====
-- `UpdateMe` as the sequence of its calls to the repository, each atomic under the mutex, and two requests
-- of one caller whose calls interleave.
use go_microservices_chat.Prelude.{String, ◌≡◌, refl, Option, none, some, List, [], ◌∷◌, arith}
use go_microservices_chat.Go.Dict
use go_microservices_chat.Go.Dict.Laws.{get-put_self}
use go_microservices_chat.Go.Errors.{sentinel}
use go_microservices_chat.Go.Exec.{Result, ok, err, panic, ◌>>=◌}
use go_microservices_chat.Auth.Context.{Context, requester_id}
use go_microservices_chat.User.Types.{User, UserError, invalid_creds}
use go_microservices_chat.User.Inmem.{InMemRepository, inmem, updated, get_user_by_id, update_user}
use go_microservices_chat.User.Service.{Crypto, Call, edited, update_me}
use go_microservices_chat.User.Service.Race.{Turn, one, two}

-- the fields of a request
pub record Wishes : Type 0 where
  pub display_name : Option String
  pub avatar_url : Option String
  pub status_text : Option String

abbrev pub apply : Call → User → Wishes → User
apply k u w = edited k u w.display_name w.avatar_url w.status_text

-- where a request stands: before it reads the account, before it writes it back, and done
pub data Phase : Type 0 where
  unread : Phase
  writing : User → Phase
  finished : Result UserError User → Phase

abbrev read : Call → Wishes → Result UserError User → Phase
read k w (ok u) = writing (apply k u w)
read k w (err e) = finished (err e)
read k w panic = finished panic

abbrev written : User → Result UserError (Unit {0}) → Phase
written u (ok _) = finished (ok u)
written u (err e) = finished (err e)
written u panic = finished panic

-- one call to the repository, and the code up to the next one
pub step : Context → Call → Wishes → Phase → InMemRepository → Phase × InMemRepository
step ctx k w unread r = elim (requester_id ctx) [
  | none ↦ (finished (err (sentinel invalid_creds)), r)
  | some id ↦ let (a, s) = get_user_by_id id r in (read k w a, s)
]
step ctx k w (writing u) r = let (a, s) = update_user u r in (written u a, s)
step ctx k w (finished a) r = (finished a, r)

abbrev next : Context → Call → Wishes → Phase × InMemRepository → Phase × InMemRepository
next ctx k w (p, r) = step ctx k w p r

-- two steps with nothing in between are the method `UpdateMe`
update_me-step :
    (c : Crypto) (ctx : Context) (k : Call) (w : Wishes) (r : InMemRepository)
    → next ctx k w (step ctx k w unread r) ≡ (
      finished (update_me inmem c ctx k w.display_name w.avatar_url w.status_text r).0,
      (update_me inmem c ctx k w.display_name w.avatar_url w.status_text r).1,
    )
unfolding step update_me get_user_by_id update_user ◌>>=◌
update_me-step c ctx k w r = ground arith

-- two requests of one caller, and the store
pub record Both : Type 0 where
  pub first : Phase
  pub second : Phase
  pub store : InMemRepository

reads :
    (ctx : Context) (k : Call) (w : Wishes) (r : InMemRepository) (u : User)
    → requester_id ctx ≡ some u.id
    → Dict.get r.users u.id ≡ some u
    → step ctx k w unread r ≡ (writing (apply k u w), r)
unfolding step get_user_by_id
reads ctx k w r u me mine = rw (me, step) (rw (mine, get_user_by_id) refl)

writes :
    (ctx : Context) (k : Call) (w : Wishes) (r : InMemRepository) (u old : User)
    → Dict.get r.users u.id ≡ some old
    → step ctx k w (writing u) r
      ≡ (finished (ok u), record r { users = Dict.put r.users u.id (updated old u) })
unfolding step update_user
writes ctx k w r u old mine = rw (mine, update_user) refl

module _ (ctx : Context) (k l : Call) (w w' : Wishes) where
  abbrev turn : Both → Turn → Both
  turn b one =
      let (p, s) = step ctx k w b.first b.store in
      record { first = p; second = b.second; store = s }
  turn b two =
      let (p, s) = step ctx l w' b.second b.store in
      record { first = b.first; second = p; store = s }

  pub run : Both → List Turn → Both
  run b [] = b
  run b (t ∷ ts) = run (turn b t) ts

  module _ (r : InMemRepository) (u : User) where
    abbrev pub both : List Turn → Both
    both ts = run (record { first = unread; second = unread; store = r }) ts

    -- Two `UpdateMe` requests of a caller who has an account both succeed, in either order of their calls.
    -- One after the other, both write their fields. If both read the account before either writes it,
    -- the account is in the end as if only the second had been made: what the first wrote is lost.
    pub lost_update :
        requester_id ctx ≡ some u.id
        → Dict.get r.users u.id ≡ some u
        → (let b = both (one ∷ one ∷ two ∷ two ∷ []) in
            (b.first ≡ finished (ok (apply k u w)))
            × (b.second ≡ finished (ok (apply l (apply k u w) w')))
            × (Dict.get b.store.users u.id ≡ some (apply l (apply k u w) w')))
          × (let b = both (one ∷ two ∷ one ∷ two ∷ []) in
              (b.first ≡ finished (ok (apply k u w)))
              × (b.second ≡ finished (ok (apply l u w')))
              × (Dict.get b.store.users u.id ≡ some (apply l u w')))
    unfolding run
    lost_update me mine =
        let after = record r { users = Dict.put r.users u.id (apply k u w) } in
        let there = get-put_self r.users u.id (apply k u w) in
        (
          rw (reads ctx k w r u me mine) (
              rw (writes ctx k w r (apply k u w) u mine) (
                rw (reads ctx l w' after (apply k u w) me there) (
                  rw (writes ctx l w' after (apply l (apply k u w) w') (apply k u w) there)
                    (refl, refl, get-put_self after.users u.id (apply l (apply k u w) w'))))),
          rw (reads ctx k w r u me mine) (
              rw (reads ctx l w' r u me mine) (
                rw (writes ctx k w r (apply k u w) u mine) (
                  rw (writes ctx l w' after (apply l u w') (apply k u w) there)
                    (refl, refl, get-put_self after.users u.id (apply l u w'))))),
        )
