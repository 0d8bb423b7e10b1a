-- ===== src/Room/Service.antt =====
-- services/chat-service/internal/room/service.go, over any repository.
pub mod Keeps
pub mod Invariant
pub mod Members
pub mod Listing
use go_microservices_chat.Prelude.{ℕ, String, none, some, List, ltb, ◌==◌, if◌then◌else◌}
use go_microservices_chat.Go.Errors.{sentinel, wrap}
use go_microservices_chat.Go.Exec.{Result, ok, err, Exec, pure, raise, catch, ◌>>=◌, ◌>>◌}
use go_microservices_chat.Go.Int.{ℤ, pos, le_zero, to_nat}
use go_microservices_chat.Go.Strings.{trim_space}
use go_microservices_chat.Go.Time.{Time}
use go_microservices_chat.Auth.Context.{Context, requester_id}
use go_microservices_chat.Chat.Errors.{
  ChatError, room, room_error, already_member, not_member, RoomSentinel,
}
use go_microservices_chat.Room.Types.{Room, Member}
use go_microservices_chat.Room.Repository.{Repository}

abbrev pub default_list_limit : ℕ
default_list_limit = 50

-- what one call gets from outside: the clock, `uuid.NewString()`, and the clock of the repository
pub record Call : Type 0 where
  pub now : Time
  pub join_now : Time
  pub uuid : String

unfoldable pub effective_limit : ℤ → ℤ
effective_limit limit =
    if le_zero limit
    then pos default_list_limit
    else if ltb 200 (to_nat limit)
    then pos 200
    else limit

-- fmt.Errorf("%w: missing requester", ErrInvalidArgument)
abbrev pub invalid : String → ChatError
invalid why = wrap "" (room_error RoomSentinel.invalid_argument) why

-- `if err == ErrAlreadyMember { return nil }`: a comparison with the sentinel itself
abbrev pub allow_member : ChatError → Result ChatError (Unit {0})
allow_member (sentinel (room already_member)) = ok tt
allow_member e = err e

abbrev pub new_room : Call → String → String → Room
new_room k name creator_id = record {
  id = k.uuid;
  name = name;
  created_by = creator_id;
  created_at = k.now;
}

module _ {S : Type 0} (repo : Repository S) where
  -- `CreateRoom` once the requester is known
  unfoldable pub create_room_as : Call → String → String → Exec S ChatError Room
  create_room_as k creator_id name = do
    let name = trim_space name
    if name == "" then raise (invalid ": name is required") else do
      repo.create_room (new_room k name creator_id)
      repo.add_member k.join_now k.uuid creator_id
      pure (new_room k name creator_id)

  unfoldable pub create_room : Context → Call → String → Exec S ChatError Room
  unfolding create_room_as
  create_room ctx k name = elim (requester_id ctx) [
    | none ↦ raise (invalid ": missing requester")
    | some creator_id ↦ create_room_as k creator_id name
  ]

  unfoldable pub get_room : String → Exec S ChatError (Room × ℕ)
  get_room id = do r ← repo.get_room id; count ← repo.count_members id; pure (r, count)

  unfoldable pub list_room_members : String → Exec S ChatError (List Member)
  list_room_members room_id = do repo.get_room room_id >>= λ _. repo.list_members room_id

  unfoldable pub list_my_rooms : Context → ℤ → String → Exec S ChatError (List Room × String)
  list_my_rooms ctx limit cursor = elim (requester_id ctx) [
    | none ↦ raise (invalid ": missing requester")
    | some user_id ↦ repo.list_rooms_by_member user_id (effective_limit limit) cursor
  ]

  unfoldable pub search_rooms : String → ℤ → String → Exec S ChatError (List Room × String)
  search_rooms query limit cursor =
      repo.search_rooms (trim_space query) (effective_limit limit) cursor

  unfoldable pub join_room : Context → Call → String → Exec S ChatError (Unit {0})
  join_room ctx k room_id = elim (requester_id ctx) [
    | none ↦ raise (invalid ": missing requester")
    | some user_id ↦ repo.get_room room_id >>= λ _.
        catch (repo.add_member k.join_now room_id user_id) allow_member
  ]

  unfoldable pub leave_room : Context → String → Exec S ChatError (Unit {0})
  leave_room ctx room_id = elim (requester_id ctx) [
    | none ↦ raise (invalid ": missing requester")
    | some user_id ↦ repo.remove_member room_id user_id
  ]

  unfoldable pub ensure_member : String → String → Exec S ChatError (Unit {0})
  ensure_member room_id user_id = do
    is ← repo.is_member room_id user_id
    if is then pure tt else raise (room_error not_member)
