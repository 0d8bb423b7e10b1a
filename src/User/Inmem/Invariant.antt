-- ===== src/User/Inmem/Invariant.antt =====
-- Emails and user names are unique, and each row stands under its own id.
use go_microservices_chat.Prelude.{
  List, String, ◌≡◌, refl, none, some, arith, eq_iff, inl, inr, Option-cases,
}
use go_microservices_chat.Go.Dict.{Dict, IsMap}
use go_microservices_chat.Go.Dict
use go_microservices_chat.Go.Dict.Laws.{get-empty, empty-IsMap, get-put, put-IsMap, find_miss}
use go_microservices_chat.Go.Exec.Keeps.{Keeps}
use go_microservices_chat.Go.Time.{Time}
use go_microservices_chat.User.Types.{User, RefreshToken}
use go_microservices_chat.User.Inmem.{
  InMemRepository, new_in_mem_repository, clashes, create_user, get_user_by_id, get_users_by_ids,
  get_user_by_email, updated, update_user, create_refresh_token, get_refresh_token_by_hash,
  revoke_refresh_token,
}

-- the table `users`: the constraints UNIQUE(email), UNIQUE(username), and id as its key
pub record UsersValid (users : Dict User) : Type 0 where
  pub is_map : IsMap users
  pub at_id : (k : String) (u : User) → Dict.get users k ≡ some u → u.id ≡ k
  pub email_unique :
      (j k : String) (u w : User)
      → Dict.get users j ≡ some u
      → Dict.get users k ≡ some w
      → u.email ≡ w.email
      → j ≡ k
  pub username_unique :
      (j k : String) (u w : User)
      → Dict.get users j ≡ some u
      → Dict.get users k ≡ some w
      → u.username ≡ w.username
      → j ≡ k

pub record TokensValid (tokens : Dict RefreshToken) : Type 0 where
  pub is_map : IsMap tokens
  pub at_id : (k : String) (t : RefreshToken) → Dict.get tokens k ≡ some t → t.id ≡ k

pub record IsValid (r : InMemRepository) : Type 0 where
  pub users : UsersValid r.users
  pub tokens : TokensValid r.tokens

module _ (users : Dict User) (u : User) (v : UsersValid users) where
  pub add-UsersValid : Dict.find (clashes u) users ≡ none → UsersValid (Dict.put users u.id u)
  add-UsersValid e = record {
    is_map = put-IsMap users u.id u v.is_map;
    at_id = λ k w h. ground (arith, get-put users u.id k u, eq_iff u.id k, v.at_id k w);
    email_unique = λ j k w x hj hk same. ground (
      arith,
      get-put users u.id j u,
      get-put users u.id k u,
      eq_iff u.id j,
      eq_iff u.id k,
      v.email_unique j k w x,
      find_miss (clashes u) users j w e,
      find_miss (clashes u) users k x e,
      eq_iff w.email u.email,
      eq_iff x.email u.email,
    );
    username_unique = λ j k w x hj hk same. ground (
      arith,
      get-put users u.id j u,
      get-put users u.id k u,
      eq_iff u.id j,
      eq_iff u.id k,
      v.username_unique j k w x,
      find_miss (clashes u) users j w e,
      find_miss (clashes u) users k x e,
      eq_iff w.username u.username,
      eq_iff x.username u.username,
    );
  }

  -- `updated` changes neither the id nor what is unique
  update_UsersValid :
      (old : User)
      → Dict.get users u.id ≡ some old
      → UsersValid (Dict.put users u.id (updated old u))
  update_UsersValid old e = record {
    is_map = put-IsMap users u.id (updated old u) v.is_map;
    at_id = λ k w h.
        ground (
          arith,
          get-put users u.id k (updated old u),
          eq_iff u.id k,
          v.at_id k w,
          v.at_id u.id old,
        );
    email_unique = λ j k w x hj hk same. ground (
      arith,
      get-put users u.id j (updated old u),
      get-put users u.id k (updated old u),
      eq_iff u.id j,
      eq_iff u.id k,
      v.email_unique j k w x,
      v.email_unique u.id k old x,
      v.email_unique j u.id w old,
    );
    username_unique = λ j k w x hj hk same. ground (
      arith,
      get-put users u.id j (updated old u),
      get-put users u.id k (updated old u),
      eq_iff u.id j,
      eq_iff u.id k,
      v.username_unique j k w x,
      v.username_unique u.id k old x,
      v.username_unique j u.id w old,
    );
  }

put-TokensValid :
    (tokens : Dict RefreshToken) (t : RefreshToken) (k : String)
    → t.id ≡ k
    → TokensValid tokens
    → TokensValid (Dict.put tokens k t)
put-TokensValid tokens t k e v = record {
  is_map = put-IsMap tokens k t v.is_map;
  at_id = λ j w h. ground (arith, get-put tokens k j t, eq_iff k j, v.at_id j w);
}

pub IsValid-new_in_mem_repository : IsValid new_in_mem_repository
IsValid-new_in_mem_repository = record {
  users = record {
    is_map = empty-IsMap;
    at_id = λ k u h. ground (arith, get-empty {V = User} k);
    email_unique = λ j k u w hj hk e. ground (arith, get-empty {V = User} j);
    username_unique = λ j k u w hj hk e. ground (arith, get-empty {V = User} j);
  };
  tokens = record {
    is_map = empty-IsMap;
    at_id = λ k t h. ground (arith, get-empty {V = RefreshToken} k);
  };
}

pub create_user-IsValid : (u : User) → Keeps IsValid (create_user u)
unfolding create_user
create_user-IsValid u = record {
  at = λ r v. elim (Option-cases (Dict.find (clashes u) r.users)) [
    | inl e ↦
        rw (e, create_user)
          (record { users = add-UsersValid r.users u v.users e; tokens = v.tokens })
    | inr (x, e) ↦ rw (e, create_user) v
  ];
}

pub update_user-IsValid : (u : User) → Keeps IsValid (update_user u)
unfolding update_user
update_user-IsValid u = record {
  at = λ r v. elim (Option-cases (Dict.get r.users u.id)) [
    | inl e ↦ rw (e, update_user) v
    | inr (x, e) ↦
        rw (e, update_user)
          (record { users = update_UsersValid r.users u v.users x e; tokens = v.tokens })
  ];
}

pub create_refresh_token-IsValid : (t : RefreshToken) → Keeps IsValid (create_refresh_token t)
unfolding create_refresh_token
create_refresh_token-IsValid t = record {
  at = λ r v. record { users = v.users; tokens = put-TokensValid r.tokens t t.id refl v.tokens };
}

pub revoke_refresh_token-IsValid :
    (id : String) (at : Time) → Keeps IsValid (revoke_refresh_token id at)
unfolding revoke_refresh_token
revoke_refresh_token-IsValid id at = record {
  at = λ r v. elim (Option-cases (Dict.get r.tokens id)) [
    | inl e ↦ rw (e, revoke_refresh_token) v
    | inr (t, e) ↦
        rw (e, revoke_refresh_token)
          (record {
            users = v.users;
            tokens =
                put-TokensValid r.tokens (record t { revoked_at = some at }) id
                  (v.tokens.at_id id t e) v.tokens;
          })
  ];
}

pub get_user_by_id-IsValid : (id : String) → Keeps IsValid (get_user_by_id id)
unfolding get_user_by_id
get_user_by_id-IsValid id = record { at = λ r v. v }

pub get_users_by_ids-IsValid : (ids : List String) → Keeps IsValid (get_users_by_ids ids)
unfolding get_users_by_ids
get_users_by_ids-IsValid ids = record { at = λ r v. v }

pub get_user_by_email-IsValid : (email : String) → Keeps IsValid (get_user_by_email email)
unfolding get_user_by_email
get_user_by_email-IsValid email = record { at = λ r v. v }

pub get_refresh_token_by_hash-IsValid :
    (hash : String) → Keeps IsValid (get_refresh_token_by_hash hash)
unfolding get_refresh_token_by_hash
get_refresh_token_by_hash-IsValid hash = record { at = λ r v. v }

-- every method of the repository keeps the tables valid
pub ruleset valid_rules = (
  create_user-IsValid, update_user-IsValid, create_refresh_token-IsValid,
  revoke_refresh_token-IsValid, get_user_by_id-IsValid, get_users_by_ids-IsValid,
  get_user_by_email-IsValid, get_refresh_token_by_hash-IsValid,
)
