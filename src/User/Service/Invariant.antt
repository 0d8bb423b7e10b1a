-- ===== src/User/Service/Invariant.antt =====
-- Every RPC of the user service keeps the tables valid.
use go_microservices_chat.Prelude.{String, Option, List, [], ◌∷◌, Option-cases, inl, inr}
use go_microservices_chat.Go.Exec.Keeps.{Keeps, keeps_rules}
use go_microservices_chat.Auth.Context.{Context, requester_id}
use go_microservices_chat.User.Types.{User}
use go_microservices_chat.User.Inmem.{InMemRepository, inmem}
use go_microservices_chat.User.Inmem.Invariant.{
  IsValid, valid_rules, get_user_by_id-IsValid, get_users_by_ids-IsValid,
}
use go_microservices_chat.User.Service.{
  Crypto, Call, register, login, refresh, rotate, issue_token_pair, update_me, get_me, get_user,
  batch_get_users,
}

-- the calls that reach the service, with their arguments
pub data Rpc : Type 0 where
  registers : Call → String → String → String → String → Rpc
  logs_in : Call → String → String → Rpc
  refreshes : Call → String → Rpc
  gets_me : Context → Rpc
  updates_me : Context → Call → Option String → Option String → Option String → Rpc
  gets_user : String → Rpc
  gets_users : List String → Rpc

module _ (c : Crypto) where
  -- the store after a call, whatever the call returned
  unfoldable pub after : InMemRepository → Rpc → InMemRepository
  after r (registers k email username display_name password) =
      (register inmem c k email username display_name password r).1
  after r (logs_in k email password) = (login inmem c k email password r).1
  after r (refreshes k token) = (refresh inmem c k token r).1
  after r (gets_me ctx) = (get_me inmem c ctx r).1
  after r (updates_me ctx k d a s) = (update_me inmem c ctx k d a s r).1
  after r (gets_user id) = (get_user inmem c id r).1
  after r (gets_users ids) = (batch_get_users inmem c ids r).1

  unfoldable pub serve : InMemRepository → List Rpc → InMemRepository
  serve r [] = r
  serve r (call ∷ calls) = serve (after r call) calls

  register-IsValid : (k : Call) (e u d p : String) → Keeps IsValid (register inmem c k e u d p)
  unfolding register
  register-IsValid k e u d p = search (keeps_rules, valid_rules) depth 9

  issue_token_pair-IsValid : (k : Call) (u : User) → Keeps IsValid (issue_token_pair inmem c k u)
  unfolding issue_token_pair
  issue_token_pair-IsValid k u = search (keeps_rules, valid_rules) depth 9

  login-IsValid : (k : Call) (e p : String) → Keeps IsValid (login inmem c k e p)
  unfolding login
  login-IsValid k e p = search (keeps_rules, valid_rules, issue_token_pair-IsValid) depth 9

  pub refresh-IsValid : (k : Call) (t : String) → Keeps IsValid (refresh inmem c k t)
  unfolding refresh rotate
  refresh-IsValid k t = search (keeps_rules, valid_rules, issue_token_pair-IsValid) depth 9

  update_me-IsValid :
      (ctx : Context) (k : Call) (d a s : Option String)
      → Keeps IsValid (update_me inmem c ctx k d a s)
  unfolding update_me
  update_me-IsValid ctx k d a s = elim (Option-cases (requester_id ctx)) [
    | inl e ↦ rw (e, update_me) (search (keeps_rules, valid_rules) depth 9)
    | inr (id, e) ↦ rw (e, update_me) (search (keeps_rules, valid_rules) depth 9)
  ]

  get_me-IsValid : (ctx : Context) → Keeps IsValid (get_me inmem c ctx)
  unfolding get_me
  get_me-IsValid ctx = elim (Option-cases (requester_id ctx)) [
    | inl e ↦ rw (e, get_me) (search (keeps_rules, valid_rules))
    | inr (id, e) ↦ rw (e, get_me) (search (keeps_rules, valid_rules))
  ]

  after-IsValid : (r : InMemRepository) (call : Rpc) → IsValid r → IsValid (after r call)
  unfolding after get_user batch_get_users
  after-IsValid r (registers k e u d p) v = (register-IsValid k e u d p).at r v
  after-IsValid r (logs_in k e p) v = (login-IsValid k e p).at r v
  after-IsValid r (refreshes k t) v = (refresh-IsValid k t).at r v
  after-IsValid r (gets_me ctx) v = (get_me-IsValid ctx).at r v
  after-IsValid r (updates_me ctx k d a s) v = (update_me-IsValid ctx k d a s).at r v
  after-IsValid r (gets_user id) v = (get_user_by_id-IsValid id).at r v
  after-IsValid r (gets_users ids) v = (get_users_by_ids-IsValid ids).at r v

  -- From valid tables, any sequence of calls, successful or not, leaves valid tables: no two users
  -- share an email or a user name, and each row stands under its own id.
  pub serve-IsValid : (r : InMemRepository) (calls : List Rpc) → IsValid r → IsValid (serve r calls)
  unfolding serve
  serve-IsValid r [] v = v
  serve-IsValid r (call ∷ calls) v = serve-IsValid (after r call) calls (after-IsValid r call v)
