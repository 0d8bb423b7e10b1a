-- ===== src/User/Tests.antt =====
-- The theorems on the user service at a store with one account and one refresh token.
mod Tokens
use mathlib.Core.Bool.{false≢true}
use go_microservices_chat.Prelude.{
  ℕ, true, String, ◌≡◌, refl, Option, none, some, List, [], ◌∷◌, arith, ◌==◌, eq_iff, inl, inr, leb,
  if◌then◌else◌,
}
use go_microservices_chat.Go.Dict
use go_microservices_chat.Go.Dict.Laws.{get-put, get-empty}
use go_microservices_chat.Go.Errors.{sentinel}
use go_microservices_chat.Go.Exec.{ok, err, ◌>>=◌}
use go_microservices_chat.Go.Strings.{trim_space, to_lower, bytes}
use go_microservices_chat.Auth.Context.{Context, requester_id}
use go_microservices_chat.User.Types.{User, RefreshToken, invalid_creds, token_invalid}
use go_microservices_chat.User.Inmem.{
  InMemRepository, inmem, new_in_mem_repository, create_user, get_user_by_id,
  get_refresh_token_by_hash, revoke_refresh_token,
}
use go_microservices_chat.User.Inmem.Invariant.{IsValid, IsValid-new_in_mem_repository}
use go_microservices_chat.User.Service.{
  Crypto, Call, normalize_email, hash_token, register, login, issue_token_pair, refresh, rotate,
}
use go_microservices_chat.User.Service.Invariant.{
  Rpc, registers, logs_in, refreshes, serve, serve-IsValid,
}
use go_microservices_chat.User.Service.Accounts.{
  get_user_by_email_lem, get-register, login-register,
}
use go_microservices_chat.User.Service.Spent.{IssuesOther}
use go_microservices_chat.User.Service.Rotation.{OneRow, refresh_once}
use go_microservices_chat.User.Service.Lost.{Wishes, apply, finished, both, lost_update}
use go_microservices_chat.User.Service.Race.{one, two}

abbrev pub toy : Crypto
toy = record { lower = λ c. c; sha256 = λ l. l; compare_hash_and_password = λ h p. h == p }

abbrev pub call : ℕ → String → ℕ → Call
call now uuid random = record {
  now = now;
  issue_now = now;
  uuid = uuid;
  random = ok (random ∷ []);
  generate_from_password = λ p. ok p;
  issue_access_token = λ id name. ok "access";
}

abbrev pub alice : User
alice = record {
  id = "u1";
  email = "a@x";
  username = "alice";
  password_hash = "pw";
  display_name = "Alice";
  avatar_url = "";
  status_text = "";
  created_at = 5;
  updated_at = 5;
}

-- the row of the refresh token "01"
abbrev pub row : RefreshToken
row = record {
  id = "t1";
  user_id = "u1";
  token_hash = "3031";
  expires_at = 100;
  revoked_at = none;
  created_at = 6;
}

abbrev pub one_user : InMemRepository
one_user = record new_in_mem_repository { users = Dict.put Dict.empty "u1" alice }

abbrev pub one_token : InMemRepository
one_token = record one_user { tokens = Dict.put Dict.empty "t1" row }

abbrev as_alice : Context
as_alice = record { incoming = some (λ k. "u1" ∷ []); outgoing = [] }

abbrev calls : List Rpc
calls =
    registers (call 5 "u1" 0) " a@x" "alice" "Alice" "pw"
    ∷ registers (call 6 "u2" 0) "a@x " "bob" "Bob" "pw"
    ∷ logs_in (call 6 "t1" 1) "a@x" "pw"
    ∷ []

pub one_user-IsValid : IsValid one_user
one_user-IsValid = record {
  users = record {
    is_map = Dict.Laws.put-IsMap Dict.empty "u1" alice Dict.Laws.empty-IsMap;
    at_id = λ k u h.
        ground (arith, get-put Dict.empty "u1" k alice, get-empty {V = User} k, eq_iff "u1" k);
    email_unique = λ j k u w hj hk e. ground (
      arith,
      get-put Dict.empty "u1" j alice,
      get-empty {V = User} j,
      eq_iff "u1" j,
      get-put Dict.empty "u1" k alice,
      get-empty {V = User} k,
      eq_iff "u1" k,
    );
    username_unique = λ j k u w hj hk e. ground (
      arith,
      get-put Dict.empty "u1" j alice,
      get-empty {V = User} j,
      eq_iff "u1" j,
      get-put Dict.empty "u1" k alice,
      get-empty {V = User} k,
      eq_iff "u1" k,
    );
  };
  tokens = IsValid-new_in_mem_repository.tokens;
}

pub one_token-IsValid : IsValid one_token
one_token-IsValid = record {
  users = one_user-IsValid.users;
  tokens = record {
    is_map = Dict.Laws.put-IsMap Dict.empty "t1" row Dict.Laws.empty-IsMap;
    at_id = λ k t h.
        ground
          (arith, get-put Dict.empty "t1" k row, get-empty {V = RefreshToken} k, eq_iff "t1" k);
  };
}

registered :
    register inmem toy (call 5 "u1" 0) " a@x" "alice" "Alice" "pw" new_in_mem_repository
    ≡ (ok alice, one_user)
unfolding register normalize_email trim_space to_lower create_user Dict.find Dict.empty Dict.put
    ◌>>=◌
registered = refl

serve-IsValid_example : IsValid (serve toy new_in_mem_repository calls)
serve-IsValid_example = serve-IsValid toy new_in_mem_repository calls IsValid-new_in_mem_repository

toy_matches :
    (hash : String)
    → (call 5 "u1" 0).generate_from_password "pw" ≡ ok hash
    → toy.compare_hash_and_password hash "pw" ≡ true
toy_matches hash e = ground (arith, eq_iff hash "pw")

same_email : normalize_email toy "a@x " ≡ normalize_email toy " a@x"
unfolding normalize_email trim_space to_lower
same_email = refl

login-register_example :
    login inmem toy (call 6 "t1" 1) "a@x " "pw" one_user
    ≡ issue_token_pair inmem toy (call 6 "t1" 1) alice one_user
login-register_example =
    login-register toy (call 5 "u1" 0) " a@x" "alice" "Alice" "pw" new_in_mem_repository one_user
      alice IsValid-new_in_mem_repository registered (call 6 "t1" 1) "a@x " toy_matches same_email

alice_calls : requester_id as_alice ≡ some "u1"
unfolding requester_id
alice_calls = refl

alice_stored : Dict.get one_user.users "u1" ≡ some alice
unfolding Dict.get Dict.put Dict.empty
alice_stored = refl

abbrev name_it : Wishes
name_it = record { display_name = some "Al"; avatar_url = none; status_text = none }

abbrev picture_it : Wishes
picture_it = record { display_name = none; avatar_url = some "pic"; status_text = none }

lost_update_example :
    (let b =
        both as_alice
          (call 9 "" 0)
          (call 10 "" 0)
          name_it
          picture_it
          one_user
          alice
          (one ∷ one ∷ two ∷ two ∷ []) in
      (b.first ≡ finished (ok (apply (call 9 "" 0) alice name_it)))
      × (b.second
          ≡ finished (ok (apply (call 10 "" 0) (apply (call 9 "" 0) alice name_it) picture_it)))
      × (Dict.get b.store.users "u1"
          ≡ some (apply (call 10 "" 0) (apply (call 9 "" 0) alice name_it) picture_it)))
    × (let b =
          both as_alice
            (call 9 "" 0)
            (call 10 "" 0)
            name_it
            picture_it
            one_user
            alice
            (one ∷ two ∷ one ∷ two ∷ []) in
        (b.first ≡ finished (ok (apply (call 9 "" 0) alice name_it)))
        × (b.second ≡ finished (ok (apply (call 10 "" 0) alice picture_it)))
        × (Dict.get b.store.users "u1" ≡ some (apply (call 10 "" 0) alice picture_it)))
lost_update_example =
    lost_update as_alice (call 9 "" 0) (call 10 "" 0) name_it picture_it one_user alice alice_calls
      alice_stored
