-- ===== src/Auth/Context/Requester.antt =====
-- Who is recognised has an id that is not empty.
use go_microservices_chat.Prelude.{
  String, ◌≡◌, ◌≢◌, some, List, [], ◌∷◌, arith, eq_iff, inl, inr, Option-cases,
}
use go_microservices_chat.Auth.Context.{Context, first_id, requester_id, metadata_key_user_id}

first_id_filled : (ids : List String) (me : String) → first_id ids ≡ some me → me ≢ ""
first_id_filled [] me h e = ground arith
first_id_filled (id ∷ ids) me h e = ground (arith, eq_iff id "")

pub requester_id_filled : (ctx : Context) (me : String) → requester_id ctx ≡ some me → me ≢ ""
unfolding requester_id
requester_id_filled ctx me h = elim (Option-cases ctx.incoming) [
  | inl e ↦ absurd (ground arith)
  | inr (get, e) ↦ first_id_filled (get metadata_key_user_id) me (ground arith)
]
