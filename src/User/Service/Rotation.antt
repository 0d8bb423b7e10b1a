-- ===== src/User/Service/Rotation.antt =====
-- Refresh tokens: each is good for one refresh, until it expires.
use go_microservices_chat.Prelude.{
  String, ◌≡◌, ap, ◌∙◌, none, some, List, All, arith, ◌==◌, eq_iff, leb, if◌then◌else◌, inl, inr,
  Option-cases,
}
use go_microservices_chat.Go.Dict.{Dict}
use go_microservices_chat.Go.Dict
use go_microservices_chat.Go.Dict.Laws.{get-put, find_hit}
use go_microservices_chat.Go.Errors.{sentinel}
use go_microservices_chat.Go.Exec.{ok, err, ◌>>=◌}
use go_microservices_chat.Go.Exec.Keeps.{Keeps-after_bind, keeps_rules}
use go_microservices_chat.Go.Time.{Time}
use go_microservices_chat.User.Types.{RefreshToken, token_invalid}
use go_microservices_chat.User.Inmem.{
  InMemRepository, inmem, get_refresh_token_by_hash, revoke_refresh_token,
}
use go_microservices_chat.User.Inmem.Invariant.{IsValid}
use go_microservices_chat.User.Service.{Crypto, Call, hash_token, refresh, rotate, issue_token_pair}
use go_microservices_chat.User.Service.Invariant.{Rpc, serve, serve-IsValid, refresh-IsValid}
use go_microservices_chat.User.Inmem.Spent.{IsSpent, spent_rules}
use go_microservices_chat.User.Service.Spent.{
  IssuesOther, NoReissue, serve-IsSpent, issue_token_pair-IsSpent,
}

-- a spent token is refused
refresh_of_IsSpent :
    (c : Crypto) (k : Call) (raw : String) (r : InMemRepository)
    → IsValid r
    → IsSpent (hash_token c raw) r
    → refresh inmem c k raw r ≡ (err (sentinel token_invalid), r)
unfolding refresh get_refresh_token_by_hash ◌>>=◌
refresh_of_IsSpent c k raw r v s =
    elim (Option-cases (Dict.find (λ t. t.token_hash == hash_token c raw) r.tokens)) [
      | inl e ↦ rw e
      | inr (t, e) ↦
          let (j, at, same) =
            find_hit (λ t. t.token_hash == hash_token c raw) r.tokens t v.tokens.is_map e in
          rw e (ground (arith, s.spent j t at ((eq_iff _ _).0 same)))
    ]

-- the hash belongs to one row at most, as UNIQUE(token_hash) asks
abbrev pub OneRow : String → InMemRepository → Type 0
OneRow hash r =
    (j k : String) (t w : RefreshToken)
    → Dict.get r.tokens j ≡ some t
    → Dict.get r.tokens k ≡ some w
    → t.token_hash ≡ hash
    → w.token_hash ≡ hash
    → j ≡ k

revoke-IsSpent :
    (hash id : String) (t : RefreshToken) (at : Time) (r : InMemRepository)
    → OneRow hash r
    → Dict.get r.tokens id ≡ some t
    → t.token_hash ≡ hash
    → IsSpent hash (revoke_refresh_token id at r).1
unfolding revoke_refresh_token
revoke-IsSpent hash id t at r one h same =
    rw (h, revoke_refresh_token)
      (record {
        spent = λ k w at' same' unrevoked. ground (
          arith,
          get-put r.tokens id k (record t { revoked_at = some at }),
          eq_iff id k,
          one id k t w,
        );
      })

module _ (c : Crypto) (k : Call) (raw : String) (r : InMemRepository) where
  rotate-IsSpent :
      (id : String) (t : RefreshToken)
      → IsValid r
      → OneRow (hash_token c raw) r
      → IssuesOther c (hash_token c raw) k
      → Dict.get r.tokens id ≡ some t
      → t.token_hash ≡ hash_token c raw
      → IsSpent (hash_token c raw) (rotate inmem c k t r).1
  unfolding rotate
  rotate-IsSpent id t v one other h same =
      Keeps-after_bind {Inv = IsSpent (hash_token c raw)} (revoke_refresh_token t.id k.now)
        (λ _. inmem.get_user_by_id t.user_id >>= λ u. issue_token_pair inmem c k u) r
        (revoke-IsSpent (hash_token c raw) t.id t k.now r one
          (ap (Dict.get r.tokens) (v.tokens.at_id id t h) ∙ h) same)
        λ _. search (keeps_rules, spent_rules, issue_token_pair-IsSpent c (hash_token c raw) k)

  refresh-IsSpent_ok :
      (s : InMemRepository) (pair : String × String)
      → IsValid r
      → OneRow (hash_token c raw) r
      → IssuesOther c (hash_token c raw) k
      → refresh inmem c k raw r ≡ (ok pair, s)
      → IsSpent (hash_token c raw) s
  unfolding refresh get_refresh_token_by_hash ◌>>=◌
  refresh-IsSpent_ok s pair v one other h =
      elim (Option-cases (Dict.find (λ t. t.token_hash == hash_token c raw) r.tokens)) [
        | inl e ↦ absurd (ground arith)
        | inr (t, e) ↦
            let (j, at, same) =
              find_hit (λ w. w.token_hash == hash_token c raw) r.tokens t v.tokens.is_map e in
            let rotated : rotate inmem c k t r ≡ (ok pair, s) = ground arith in
            rw rotated at (rotate-IsSpent j t v one other at ((eq_iff _ _).0 same))
      ]

  refresh-IsValid_ok :
      (s : InMemRepository) (pair : String × String)
      → IsValid r
      → refresh inmem c k raw r ≡ (ok pair, s)
      → IsValid s
  refresh-IsValid_ok s pair v h = rw h at ((refresh-IsValid c k raw).at r v)

  -- A refresh token is good for one refresh: after a successful refresh and any later calls, with or
  -- without success, the same token is refused and the store stays as it is. The row of the token
  -- is the only one with its hash, and no call draws a random value with that hash.
  pub refresh_once :
      (s : InMemRepository) (pair : String × String) (calls : List Rpc) (k' : Call)
      → IsValid r
      → OneRow (hash_token c raw) r
      → IssuesOther c (hash_token c raw) k
      → All (NoReissue c (hash_token c raw)) calls
      → refresh inmem c k raw r ≡ (ok pair, s)
      → refresh inmem c k' raw (serve c s calls) ≡ (err (sentinel token_invalid), serve c s calls)
  refresh_once s pair calls k' v one other none_again h =
      refresh_of_IsSpent c k' raw (serve c s calls)
        (serve-IsValid c s calls (refresh-IsValid_ok s pair v h))
        (serve-IsSpent c (hash_token c raw) s calls none_again
          (refresh-IsSpent_ok s pair v one other h))

  -- Time limit: the row of a token that nobody has refreshed yet is accepted at its expiry time and
  -- before, and the rotation begins; after it the token is refused and the store stays as it is.
  pub refresh_deadline :
      (t : RefreshToken)
      → Dict.find (λ w. w.token_hash == hash_token c raw) r.tokens ≡ some t
      → t.revoked_at ≡ none
      → refresh inmem c k raw r ≡ (
          if leb k.now t.expires_at
          then rotate inmem c k t r
          else (err (sentinel token_invalid), r))
  unfolding refresh get_refresh_token_by_hash ◌>>=◌
  refresh_deadline t e unrevoked = rw (e, unrevoked) (ground arith)
