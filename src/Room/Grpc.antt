-- ===== src/Room/Grpc.antt =====
-- services/chat-service/internal/room/grpc.go. Requests and responses are the messages of
-- gen/go/chat/v1; a `google.protobuf.Timestamp` is the time that it stands for.
pub mod Enrichment
pub mod Keeps
use go_microservices_chat.Prelude.{ℕ, String, Option, none, some, List, [], ◌∷◌, map}
use go_microservices_chat.Go.Dict.{Dict}
use go_microservices_chat.Go.Dict
use go_microservices_chat.Go.Errors.{root}
use go_microservices_chat.Go.Exec.{
  Result, ok, err, panic, Exec, pure, lift, convert, convert_err, ◌>>=◌,
}
use go_microservices_chat.Go.Int.{ℤ, to_int32}
use go_microservices_chat.Go.Status.{Code, Status, internal, failed_precondition}
use go_microservices_chat.Go.Time.{Time}
use go_microservices_chat.Auth.Context.{Context}
use go_microservices_chat.Chat.Errors.{
  ChatSentinel, ChatError, room, message, not_found, already_member, not_member, RoomSentinel,
  error_text,
}
use go_microservices_chat.Chat.UserClient.{Profile, Client}
use go_microservices_chat.Room.Types.{Room, Member}
use go_microservices_chat.Room.Repository.{Repository}
use go_microservices_chat.Room.Service
use go_microservices_chat.Room.Service.{Call}

pub record RoomMessage : Type 0 where
  pub id : String
  pub name : String
  pub created_by : String
  pub member_count : ℤ
  pub created_at : Time

pub record RoomMember : Type 0 where
  pub user_id : String
  pub display_name : String
  pub avatar_url : String
  pub joined_at : Time

unfoldable pub room_to_proto : Room → ℕ → RoomMessage
room_to_proto r count = record {
  id = r.id;
  name = r.name;
  created_by = r.created_by;
  member_count = to_int32 count;
  created_at = r.created_at;
}

-- a profile that is missing leaves the name and the avatar empty
abbrev with_profile : Member → Option Profile → RoomMember
with_profile m none = record {
  user_id = m.user_id;
  display_name = "";
  avatar_url = "";
  joined_at = m.joined_at;
}
with_profile m (some p) = record {
  user_id = m.user_id;
  display_name = p.display_name;
  avatar_url = p.avatar_url;
  joined_at = m.joined_at;
}

unfoldable pub member_to_proto : Dict Profile → Member → RoomMember
member_to_proto profiles m = with_profile m (Dict.get profiles m.user_id)

-- the `switch` on `errors.Is`
abbrev code_of : Option ChatSentinel → Code
code_of (some (room not_found)) = Code.not_found
code_of (some (room already_member)) = Code.already_exists
code_of (some (room not_member)) = failed_precondition
code_of (some (room RoomSentinel.invalid_argument)) = Code.invalid_argument
code_of (some (message e)) = internal
code_of none = internal

unfoldable pub map_error : ChatError → Status
map_error e = record { code = code_of (root e); message = error_text e }

-- the loop that fills `byID`
unfoldable pub by_id : Dict Profile → List Profile → Dict Profile
by_id d [] = d
by_id d (p ∷ ps) = by_id (Dict.put d p.id p) ps

abbrev indexed : Result String (List Profile) → Result String (Dict Profile)
indexed (ok profiles) = ok (by_id Dict.empty profiles)
indexed (err e) = err e
indexed panic = panic

-- one call for all members, and none for an empty list
unfoldable pub enrich_members : Client → Context → List Member → Result String (Dict Profile)
unfolding by_id
enrich_members client ctx [] = ok Dict.empty
enrich_members client ctx (m ∷ ms) = indexed (client ctx (map (λ x. x.user_id) (m ∷ ms)))

-- `status.Error(codes.Internal, err.Error())`
abbrev internal_error : String → Status
internal_error e = record { code = internal; message = e }

module _ {S : Type 0} (repo : Repository S) (client : Client) where
  unfoldable pub create_room : Context → Call → String → Exec S Status RoomMessage
  create_room ctx k name = do
    r ← convert_err map_error (Service.create_room repo ctx k name)
    pure (room_to_proto r 1)

  unfoldable pub get_room : String → Exec S Status RoomMessage
  get_room room_id = convert_err map_error (Service.get_room repo room_id) >>= λ (r, count).
      pure (room_to_proto r count)

  unfoldable pub list_rooms : Context → ℤ → String → Exec S Status (List RoomMessage × String)
  list_rooms ctx limit cursor =
      convert_err map_error (Service.list_my_rooms repo ctx limit cursor) >>= λ (rooms, next).
      pure (map (λ r. room_to_proto r 0) rooms, next)

  unfoldable pub search_rooms : String → ℤ → String → Exec S Status (List RoomMessage × String)
  search_rooms query limit cursor =
      convert_err map_error (Service.search_rooms repo query limit cursor) >>= λ (rooms, next).
      pure (map (λ r. room_to_proto r 0) rooms, next)

  unfoldable pub join_room : Context → Call → String → Exec S Status (Unit {0})
  join_room ctx k room_id = convert_err map_error (Service.join_room repo ctx k room_id)

  unfoldable pub leave_room : Context → String → Exec S Status (Unit {0})
  leave_room ctx room_id = convert_err map_error (Service.leave_room repo ctx room_id)

  unfoldable pub list_room_members : Context → String → Exec S Status (List RoomMember × String)
  unfolding enrich_members
  list_room_members ctx room_id = do
    members ← convert_err map_error (Service.list_room_members repo room_id)
    profiles ← lift (convert internal_error (enrich_members client ctx members))
    pure (map (member_to_proto profiles) members, "")
