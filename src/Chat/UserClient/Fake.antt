-- ===== src/Chat/UserClient/Fake.antt =====
-- services/chat-service/internal/userclient/fake.go: the double for tests, which keeps its profiles by id.
use go_microservices_chat.Prelude.{String, none, some, List, [], ◌∷◌}
use go_microservices_chat.Go.Dict.{Dict}
use go_microservices_chat.Go.Dict
use go_microservices_chat.Go.Exec.{Result, ok, err}
use go_microservices_chat.Auth.Context.{Context}
use go_microservices_chat.Chat.UserClient.{Profile, Client}

pub record Fake : Type 0 where
  pub profiles : Dict Profile

abbrev pub new_fake : Fake
new_fake = record { profiles = Dict.empty }

unfoldable pub set : Profile → Fake → Fake
set p f = record { profiles = Dict.put f.profiles p.id p }

unfoldable pub fake_get_user : Fake → Context → String → Result String Profile
fake_get_user f ctx user_id = elim (Dict.get f.profiles user_id) [
  | none ↦ err "userclient.fake: not found"
  | some p ↦ ok p
]

-- the loop over the ids
unfoldable pub fake_profiles : Dict Profile → List String → List Profile
fake_profiles d [] = []
fake_profiles d (id ∷ ids) =
    let rest = fake_profiles d ids in elim (Dict.get d id) [ none ↦ rest | some p ↦ p ∷ rest ]

unfoldable pub fake_batch_get_users : Fake → Client
unfolding fake_profiles
fake_batch_get_users f ctx user_ids = ok (fake_profiles f.profiles user_ids)
