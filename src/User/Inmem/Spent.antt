-- ===== src/User/Inmem/Spent.antt =====
-- A refresh token is spent: every row with its hash is revoked. Only a new row could undo that.
use go_microservices_chat.Prelude.{
  String, ◌≡◌, ◌≢◌, none, some, List, arith, inl, inr, Option-cases,
}
use go_microservices_chat.Go.Dict.{Dict}
use go_microservices_chat.Go.Dict
use go_microservices_chat.Go.Dict.Laws.{get-put}
use go_microservices_chat.Go.Exec.Keeps.{Keeps}
use go_microservices_chat.Go.Time.{Time}
use go_microservices_chat.User.Types.{User, RefreshToken}
use go_microservices_chat.User.Inmem.{
  InMemRepository, create_user, get_user_by_id, get_users_by_ids, get_user_by_email, update_user,
  create_refresh_token, get_refresh_token_by_hash, revoke_refresh_token,
}

-- every token with this hash is revoked
pub record IsSpent (hash : String) (r : InMemRepository) : Type 0 where
  pub spent :
      (k : String) (t : RefreshToken)
      → Dict.get r.tokens k ≡ some t
      → t.token_hash ≡ hash
      → t.revoked_at ≢ none

module _ (hash : String) where
  pub create_user-IsSpent : (u : User) → Keeps (IsSpent hash) (create_user u)
  unfolding create_user
  create_user-IsSpent u = record {
    at = λ r s. record { spent = λ k t. ground (arith, s.spent k t) };
  }

  pub update_user-IsSpent : (u : User) → Keeps (IsSpent hash) (update_user u)
  unfolding update_user
  update_user-IsSpent u = record {
    at = λ r s. record { spent = λ k t. ground (arith, s.spent k t) };
  }

  pub create_refresh_token-IsSpent :
      (n : RefreshToken) → n.token_hash ≢ hash → Keeps (IsSpent hash) (create_refresh_token n)
  unfolding create_refresh_token
  create_refresh_token-IsSpent n new = record {
    at = λ r s. record {
      spent = λ k t at same unrevoked. ground (arith, get-put r.tokens n.id k n, s.spent k t);
    };
  }

  pub revoke_refresh_token-IsSpent :
      (id : String) (at : Time) → Keeps (IsSpent hash) (revoke_refresh_token id at)
  unfolding revoke_refresh_token
  revoke_refresh_token-IsSpent id at = record {
    at = λ r s. elim (Option-cases (Dict.get r.tokens id)) [
      | inl e ↦ rw (e, revoke_refresh_token) s
      | inr (w, e) ↦
          rw (e, revoke_refresh_token)
            (record {
              spent = λ k t at' same unrevoked.
                  ground
                    (arith, get-put r.tokens id k (record w { revoked_at = some at }), s.spent k t);
            })
    ];
  }

  pub get_user_by_id-IsSpent : (id : String) → Keeps (IsSpent hash) (get_user_by_id id)
  unfolding get_user_by_id
  get_user_by_id-IsSpent id = record { at = λ r s. s }

  pub get_users_by_ids-IsSpent : (ids : List String) → Keeps (IsSpent hash) (get_users_by_ids ids)
  unfolding get_users_by_ids
  get_users_by_ids-IsSpent ids = record { at = λ r s. s }

  pub get_user_by_email-IsSpent : (email : String) → Keeps (IsSpent hash) (get_user_by_email email)
  unfolding get_user_by_email
  get_user_by_email-IsSpent email = record { at = λ r s. s }

  pub get_refresh_token_by_hash-IsSpent :
      (h : String) → Keeps (IsSpent hash) (get_refresh_token_by_hash h)
  unfolding get_refresh_token_by_hash
  get_refresh_token_by_hash-IsSpent h = record { at = λ r s. s }

pub ruleset spent_rules = (
  create_user-IsSpent, update_user-IsSpent, revoke_refresh_token-IsSpent, get_user_by_id-IsSpent,
  get_users_by_ids-IsSpent, get_user_by_email-IsSpent, get_refresh_token_by_hash-IsSpent,
)
