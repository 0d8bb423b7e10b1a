-- ===== src/User/Service/Accounts.antt =====
-- Registration, login and profiles.
use go_microservices_chat.Prelude.{
  String, ◌≡◌, sym, ◌⊎◌, ◌≢◌, true, false, none, some, arith, ◌==◌, eq_iff, eq_refl, inl, inr,
  Option-cases,
}
use go_microservices_chat.Go.Dict
use go_microservices_chat.Go.Dict.Laws.{get-put_self, get-put_ne, find_hit, find_miss}
use go_microservices_chat.Go.Errors.{sentinel}
use go_microservices_chat.Go.Exec.{ok, err, ◌>>=◌}
use go_microservices_chat.Auth.Context.{Context}
use go_microservices_chat.User.Types.{User, invalid_creds}
use go_microservices_chat.User.Inmem.{
  InMemRepository, inmem, clashes, create_user, get_user_by_id, get_user_by_email,
}
use go_microservices_chat.User.Inmem.Invariant.{IsValid, add-UsersValid}
use go_microservices_chat.User.Service.{
  Crypto, Call, normalize_email, register, login, issue_token_pair,
}

-- Whatever order `range` takes, the search by email finds the one user that has it.
pub get_user_by_email_lem :
    (r : InMemRepository) (k : String) (u : User)
    → IsValid r
    → Dict.get r.users k ≡ some u
    → get_user_by_email u.email r ≡ (ok u, r)
unfolding get_user_by_email
get_user_by_email_lem r k u v h =
    elim (Option-cases (Dict.find (λ w. w.email == u.email) r.users)) [
      | inl e ↦ ground (arith, find_miss (λ w. w.email == u.email) r.users k u e h, eq_refl u.email)
      | inr (w, e) ↦
          let (j, at, same) = find_hit (λ w. w.email == u.email) r.users w v.users.is_map e in
          ground (arith, eq_iff w.email u.email, v.users.email_unique j k w u)
    ]

module _ (c : Crypto) (k : Call) where
  pub register_inv :
      (email username display_name password : String) (r s : InMemRepository) (u : User)
      → register inmem c k email username display_name password r ≡ (ok u, s)
      → (k.generate_from_password password ≡ ok u.password_hash)
        × (u.email ≡ normalize_email c email)
        × (u.id ≡ k.uuid)
        × (Dict.find (clashes u) r.users ≡ none)
        × (s ≡ record r { users = Dict.put r.users u.id u })
  unfolding register create_user ◌>>=◌
  register_inv email username display_name password r s u h = ground arith

  module _ (email username display_name password : String) (r s : InMemRepository) (u : User)
      (v : IsValid r)
      (registered : register inmem c k email username display_name password r ≡ (ok u, s)) where
    register-IsValid : IsValid s
    register-IsValid =
        let (_, _, _, free, stored) =
          register_inv email username display_name password r s u registered in
        rw stored (record { users = add-UsersValid r.users u v.users free; tokens = v.tokens })

    stored_user : Dict.get s.users u.id ≡ some u
    stored_user =
        let (_, _, _, _, stored) =
          register_inv email username display_name password r s u registered in
        rw stored (get-put_self r.users u.id u)

    -- After a successful registration the account is found under its id and under the email that
    -- the caller typed, once normalised, and every other id has the answer that it had before.
    pub get-register :
        (get_user_by_id u.id s ≡ (ok u, s))
        × (get_user_by_email (normalize_email c email) s ≡ (ok u, s))
        × ((id : String) → id ≢ u.id → (get_user_by_id id s).0 ≡ (get_user_by_id id r).0)
    unfolding get_user_by_id
    get-register =
        let (_, e, _, _, stored) =
          register_inv email username display_name password r s u registered in
        (
          rw stored_user,
          rw (← e) (get_user_by_email_lem s u.id u register-IsValid stored_user),
          λ id other. rw (stored, get-put_ne r.users u.id id u (λ p. other (sym p))),
        )

    -- Who has registered can log in: with the same password, and any spelling of the email that is
    -- normalised to the same text, the login goes on to issue a token pair for that account. The
    -- hypothesis is bcrypt's: a password matches the hash that was made of it.
    pub login-register :
        (k' : Call) (email' : String)
        → ((hash : String)
            → k.generate_from_password password ≡ ok hash
            → c.compare_hash_and_password hash password ≡ true)
        → normalize_email c email' ≡ normalize_email c email
        → login inmem c k' email' password s ≡ issue_token_pair inmem c k' u s
    unfolding login ◌>>=◌
    login-register k' email' matches same =
        let (hashed, _, _, _, _) =
          register_inv email username display_name password r s u registered in
        rw (same, get-register.1) (rw (matches u.password_hash hashed))

  -- An unknown email and a wrong password get the same answer, and neither changes the store.
  pub login_refused :
      (email password : String) (r : InMemRepository)
      → (Dict.find (λ u. u.email == normalize_email c email) r.users ≡ none)
        ⊎ ((u : User) × (Dict.find (λ w. w.email == normalize_email c email) r.users ≡ some u)
            × (c.compare_hash_and_password u.password_hash password ≡ false))
      → login inmem c k email password r ≡ (err (sentinel invalid_creds), r)
  unfolding login get_user_by_email ◌>>=◌
  login_refused email password r (inl e) = rw e
  login_refused email password r (inr (u, e, wrong)) = rw e (rw wrong)
