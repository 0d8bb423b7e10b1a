-- ===== src/User/Tests/Tokens.antt =====
-- Refresh tokens at a store with one account and one token.
use mathlib.Core.Bool.{false≢true}
use go_microservices_chat.Prelude.{ap, ◌∙◌, String, ◌≡◌, refl, some, [], ◌∷◌, arith, ◌==◌, eq_iff}
use go_microservices_chat.Go.Dict
use go_microservices_chat.Go.Dict.Laws.{get-put, get-empty}
use go_microservices_chat.Go.Errors.{sentinel}
use go_microservices_chat.Go.Exec.{ok, err, ◌>>=◌}
use go_microservices_chat.Go.Strings.{bytes, encode_hex}
use go_microservices_chat.User.Types.{RefreshToken, token_invalid}
use go_microservices_chat.User.Inmem.{
  InMemRepository, inmem, get_user_by_id, get_refresh_token_by_hash, revoke_refresh_token,
  create_refresh_token,
}
use go_microservices_chat.User.Service.{
  Call, hash_token, new_refresh_token_value, issue_token_pair, refresh, rotate,
}
use go_microservices_chat.User.Service.Invariant.{serve}
use go_microservices_chat.User.Service.Spent.{IssuesOther}
use go_microservices_chat.User.Service.Rotation.{OneRow, refresh_once}
use go_microservices_chat.User.Service.Race.{looking, finished, one, two, run, both_refresh}
use go_microservices_chat.User.Tests.{toy, call, alice, row, one_token, one_token-IsValid}

abbrev first_call : Call
first_call = call 50 "t2" 2

abbrev second_call : Call
second_call = call 60 "t3" 3

abbrev pair : String × String
pair = ("access", "02")

abbrev rotated : InMemRepository
rotated = (refresh inmem toy first_call "01" one_token).1

hash-eq : hash_token toy "01" ≡ "3031"
unfolding hash_token bytes encode_hex
hash-eq = refl

one_row : OneRow (hash_token toy "01") one_token
one_row j k t w at at' e e' = ground (
  arith,
  get-put Dict.empty "t1" j row,
  get-put Dict.empty "t1" k row,
  eq_iff "t1" j,
  eq_iff "t1" k,
  get-empty {V = RefreshToken} j,
  get-empty {V = RefreshToken} k,
)

issues_other : IssuesOther toy (hash_token toy "01") first_call
unfolding hash_token bytes encode_hex new_refresh_token_value
issues_other raw e p = false≢true ((eq_iff "3032" "3031").1 (ap (hash_token toy) e' ∙ p))
  where
    e' : "02" ≡ raw
    e' = ground arith

first_refresh : refresh inmem toy first_call "01" one_token ≡ (ok pair, rotated)
unfolding refresh rotate issue_token_pair new_refresh_token_value get_refresh_token_by_hash
    revoke_refresh_token get_user_by_id create_refresh_token hash_token bytes encode_hex Dict.find
    Dict.get Dict.put Dict.empty ◌>>=◌
first_refresh = refl

refresh_once_example :
    refresh inmem toy second_call "01" (serve toy rotated [])
    ≡ (err (sentinel token_invalid), serve toy rotated [])
refresh_once_example =
    refresh_once toy first_call "01" one_token rotated pair [] second_call one_token-IsValid one_row
      issues_other tt first_refresh

row_found : Dict.find (λ w. w.token_hash == hash_token toy "01") one_token.tokens ≡ some row
unfolding hash_token bytes encode_hex Dict.find Dict.put Dict.empty
row_found = refl

alice_there : Dict.get one_token.users "u1" ≡ some alice
unfolding Dict.get Dict.put Dict.empty
alice_there = refl

both_refresh_example :
    (let b =
        run toy first_call second_call "01"
          (record { first = looking; second = looking; store = one_token })
          (one ∷ two ∷ one ∷ two ∷ one ∷ two ∷ one ∷ two ∷ []) in
      (b.first ≡ finished (ok ("access", encode_hex (2 ∷ []))))
      × (b.second ≡ finished (ok ("access", encode_hex (3 ∷ [])))))
both_refresh_example =
    both_refresh toy first_call second_call "01" one_token row alice "access" "access" (2 ∷ [])
      (3 ∷ []) one_token-IsValid row_found refl (omega arith) (omega arith) alice_there refl refl
      refl refl
