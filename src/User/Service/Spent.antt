-- ===== src/User/Service/Spent.antt =====
-- Calls that issue other tokens leave a spent token spent.
use go_microservices_chat.Prelude.{
  String, ◌≡◌, ◌≢◌, Option, List, [], ◌∷◌, All, inl, inr, Option-cases,
}
use go_microservices_chat.Go.Exec.{ok}
use go_microservices_chat.Go.Exec.Keeps.{
  Keeps, Keeps-pure, Keeps-bind, Keeps-bind-lift, keeps_rules,
}
use go_microservices_chat.Auth.Context.{Context, requester_id}
use go_microservices_chat.User.Types.{User}
use go_microservices_chat.User.Inmem.{InMemRepository, inmem}
use go_microservices_chat.User.Service.{
  Crypto, Call, hash_token, new_refresh_token_value, new_token, register, login, refresh, rotate,
  issue_token_pair, update_me, get_me, get_user, batch_get_users,
}
use go_microservices_chat.User.Service.Invariant.{
  Rpc, registers, logs_in, refreshes, gets_me, updates_me, gets_user, gets_users, after, serve,
}
use go_microservices_chat.User.Inmem.Spent.{
  IsSpent, create_refresh_token-IsSpent, get_user_by_id-IsSpent, get_users_by_ids-IsSpent,
  spent_rules,
}

-- the token that this call would issue does not have this hash
abbrev pub IssuesOther : Crypto → String → Call → Type 0
IssuesOther c hash k = (raw : String) → new_refresh_token_value k ≡ ok raw → hash_token c raw ≢ hash

abbrev pub NoReissue : Crypto → String → Rpc → Type 0
NoReissue c hash (logs_in k email password) = IssuesOther c hash k
NoReissue c hash (refreshes k token) = IssuesOther c hash k
NoReissue c hash _ = Unit

module _ (c : Crypto) (hash : String) where
  pub issue_token_pair-IsSpent :
      (k : Call) (u : User)
      → IssuesOther c hash k
      → Keeps (IsSpent hash) (issue_token_pair inmem c k u)
  unfolding issue_token_pair
  issue_token_pair-IsSpent k u other = Keeps-bind-lift _ _ λ access _. Keeps-bind-lift _ _ λ raw e.
      Keeps-bind _ _ (create_refresh_token-IsSpent hash (new_token c k u raw) (other raw e))
        λ _. Keeps-pure (access, raw)

  login-IsSpent :
      (k : Call) (e p : String) → IssuesOther c hash k → Keeps (IsSpent hash) (login inmem c k e p)
  unfolding login
  login-IsSpent k e p other = search (keeps_rules, spent_rules, issue_token_pair-IsSpent) depth 9

  refresh-IsSpent :
      (k : Call) (t : String) → IssuesOther c hash k → Keeps (IsSpent hash) (refresh inmem c k t)
  unfolding refresh rotate
  refresh-IsSpent k t other = search (keeps_rules, spent_rules, issue_token_pair-IsSpent) depth 9

  register-IsSpent :
      (k : Call) (e u d p : String) → Keeps (IsSpent hash) (register inmem c k e u d p)
  unfolding register
  register-IsSpent k e u d p = search (keeps_rules, spent_rules) depth 9

  update_me-IsSpent :
      (ctx : Context) (k : Call) (d a s : Option String)
      → Keeps (IsSpent hash) (update_me inmem c ctx k d a s)
  unfolding update_me
  update_me-IsSpent ctx k d a s = elim (Option-cases (requester_id ctx)) [
    | inl e ↦ rw (e, update_me) (search (keeps_rules, spent_rules) depth 9)
    | inr (id, e) ↦ rw (e, update_me) (search (keeps_rules, spent_rules) depth 9)
  ]

  get_me-IsSpent : (ctx : Context) → Keeps (IsSpent hash) (get_me inmem c ctx)
  unfolding get_me
  get_me-IsSpent ctx = elim (Option-cases (requester_id ctx)) [
    | inl e ↦ rw (e, get_me) (search (keeps_rules, spent_rules))
    | inr (id, e) ↦ rw (e, get_me) (search (keeps_rules, spent_rules))
  ]

  after-IsSpent :
      (r : InMemRepository) (call : Rpc)
      → NoReissue c hash call
      → IsSpent hash r
      → IsSpent hash (after c r call)
  unfolding after get_user batch_get_users
  after-IsSpent r (registers k e u d p) _ v = (register-IsSpent k e u d p).at r v
  after-IsSpent r (logs_in k e p) n v = (login-IsSpent k e p n).at r v
  after-IsSpent r (refreshes k t) n v = (refresh-IsSpent k t n).at r v
  after-IsSpent r (gets_me ctx) _ v = (get_me-IsSpent ctx).at r v
  after-IsSpent r (updates_me ctx k d a s) _ v = (update_me-IsSpent ctx k d a s).at r v
  after-IsSpent r (gets_user id) _ v = (get_user_by_id-IsSpent hash id).at r v
  after-IsSpent r (gets_users ids) _ v = (get_users_by_ids-IsSpent hash ids).at r v

  pub serve-IsSpent :
      (r : InMemRepository) (calls : List Rpc)
      → All (NoReissue c hash) calls
      → IsSpent hash r
      → IsSpent hash (serve c r calls)
  unfolding serve
  serve-IsSpent r [] _ v = v
  serve-IsSpent r (call ∷ calls) n v =
      serve-IsSpent (after c r call) calls n.1 (after-IsSpent r call n.0 v)
