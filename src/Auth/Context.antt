-- ===== src/Auth/Context.antt =====
-- pkg/auth/context.go. gRPC's metadata is not modelled: `incoming` is what
-- `metadata.FromIncomingContext` finds, as the function `md.Get` of it, and `outgoing` holds what
-- `metadata.AppendToOutgoingContext` appended.
pub mod Requester
use go_microservices_chat.Prelude.{
  String, Option, none, some, List, [], ◌∷◌, ◌++◌, ◌==◌, if◌then◌else◌,
}

pub record Context : Type 0 where
  pub incoming : Option (String → List String)
  pub outgoing : List (String × String)

abbrev pub metadata_key_user_id : String
metadata_key_user_id = "x-user-id"

-- the first value, unless it is empty
abbrev first_id : List String → Option String
first_id [] = none
first_id (id ∷ ids) = if id == "" then none else some id

-- `none` is `"", false`
unfoldable pub requester_id : Context → Option String
requester_id ctx = elim ctx.incoming [
  | none ↦ none
  | some get ↦ first_id (get metadata_key_user_id)
]

unfoldable pub propagate_requester : Context → Context
propagate_requester ctx = elim (requester_id ctx) [
  | none ↦ ctx
  | some id ↦ record ctx { outgoing = ctx.outgoing ++ (metadata_key_user_id, id) ∷ [] }
]
