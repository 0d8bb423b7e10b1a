-- ===== src/Chat/Server/Invariant.antt =====
-- What one RPC of services/chat-service/internal/grpc/server.go leaves of valid stores.
use Prim.Native.Char.{Char}
use mathlib.Core.Path.{subst}
use go_microservices_chat.Prelude.{
  ap, ◌∙◌, String, ◌≡◌, refl, sym, ◌≢◌, ◌⊎◌, inl, inr, none, [], ◌∷◌, ◌++◌, All, All-append,
  All-weaken, arith, Option-cases,
}
use go_microservices_chat.Go.Dict
use go_microservices_chat.Go.Dict.Laws.{get-empty}
use go_microservices_chat.Go.Exec.{Exec, on_first, on_second, convert_err, ◌>>=◌}
use go_microservices_chat.Go.Exec.Keeps.{Keeps}
use go_microservices_chat.Go.Int.{ℤ}
use go_microservices_chat.Go.Sort.{Pairwise-snoc}
use go_microservices_chat.Go.Status.{Status}
use go_microservices_chat.Go.Strings.{trim_space}
use go_microservices_chat.Go.Time.{InRange}
use go_microservices_chat.Auth.Context.{Context}
use go_microservices_chat.Auth.Context.Requester.{requester_id_filled}
use go_microservices_chat.Chat.UserClient.{Client}
use go_microservices_chat.Chat.Server.{
  create_room, get_room, list_rooms, search_rooms, join_room, leave_room, list_room_members,
  send_message, get_messages,
}
use go_microservices_chat.Room.Grpc as RoomGrpc
use go_microservices_chat.Room.Grpc.Keeps as RoomKeeps
use go_microservices_chat.Room.Inmem as Rooms
use go_microservices_chat.Room.Inmem.Existing.{Existing, inmem-Existing}
use go_microservices_chat.Room.Inmem.Invariant.{IsValid, IsValid-new_in_mem_repository}
use go_microservices_chat.Room.Service.Invariant.{inmem-IsValid}
use go_microservices_chat.Room.Service.Keeps.{RepositoryKeeps}
use go_microservices_chat.Room.Service.{ensure_member}
use go_microservices_chat.Message.Cursor.{Codec}
use go_microservices_chat.Message.Grpc as MessageGrpc
use go_microservices_chat.Message.Grpc.{MessageProto, get_messages_as}
use go_microservices_chat.Message.Grpc.Authorisation.{
  Stores, send_message_authorised, send_message_refused, send_message_cases,
}
use go_microservices_chat.Message.Inmem as Messages
use go_microservices_chat.Message.Inmem.History as History
use go_microservices_chat.Message.Service
use go_microservices_chat.Message.Inmem.History.{history, Descends}
use go_microservices_chat.Message.Service.{Call as MessageCall, new_message}
use go_microservices_chat.Message.Types.{Message}
use go_microservices_chat.Chat.Server.Calls.{
  Rpc, creates_room, gets_room, lists_rooms, searches_rooms, joins_room, leaves_room, lists_members,
  sends_message, gets_messages, after, Posted, ServerValid, Usable, Unused, Apart,
}

on_first-ServerValid :
    {A : Type 0} (m : Exec Rooms.InMemRepository Status A)
    → Keeps IsValid m
    → ((id : String) → Keeps (Existing id) m)
    → Keeps ServerValid (on_first m)
unfolding on_first
on_first-ServerValid m valid existing = record {
  at = λ s v. record {
    rooms = valid.at s.0 v.rooms;
    messages = v.messages;
    posted = All-weaken (λ x p. ((existing x.room_id).at s.0 p.0, p.1, p.2)) s.1.messages v.posted;
  };
}

-- a room with a member exists
member-Existing :
    (rooms : Rooms.InMemRepository) (room_id me : String)
    → IsValid rooms
    → Dict.get (Rooms.members_of rooms room_id) me ≢ none
    → Existing room_id rooms
member-Existing rooms room_id me v joined = elim (Option-cases (Dict.get rooms.members room_id)) [
  | inl e ↦ absurd (joined (rw e (get-empty me)))
  | inr (ms, e) ↦ v.has_room room_id ms e
]

abbrev pub empty_stores : Stores
empty_stores = (Rooms.new_in_mem_repository, Messages.new_in_mem_repository)

pub empty_stores-ServerValid : ServerValid empty_stores
empty_stores-ServerValid = record {
  rooms = IsValid-new_in_mem_repository;
  messages = record { distinct = tt; ids = tt; times = tt };
  posted = tt;
}

-- a message that is stored behind the others
post-ServerValid :
    (s : Stores) (m : Message)
    → ServerValid s
    → Posted s.0 m
    → m.id ≢ ""
    → InRange m.created_at
    → All (λ x. x.id ≢ m.id) s.1.messages
    → ServerValid (s.0, record { messages = s.1.messages ++ m ∷ [] })
post-ServerValid s m v posted named timed new = record {
  rooms = v.rooms;
  messages = record {
    distinct = Pairwise-snoc History.DistinctIds s.1.messages m new v.messages.distinct;
    ids = All-append (λ x. x.id ≢ "") s.1.messages (m ∷ []) v.messages.ids (named, tt);
    times =
        All-append (λ x. InRange x.created_at) s.1.messages (m ∷ []) v.messages.times (timed, tt);
  };
  posted = All-append (Posted s.0) s.1.messages (m ∷ []) v.posted (posted, tt);
}

module _ (lower : Char → Char) (users : Client) (codec : Codec) where
  -- what a call that sends leaves behind
  sent-cases :
      (ctx : Context) (k : MessageCall) (id sender content : String) (s : Stores)
      → let s' = after lower users codec s (sends_message ctx k id sender content) in
        (s' ≡ s)
        ⊎ ((me : String) × (me ≢ "")
            × (Dict.get (Rooms.members_of s.0 id) me ≢ none)
            × (trim_space content ≢ "")
            × (s' ≡ (
              s.0,
              record { messages = s.1.messages ++ new_message k id me (trim_space content) ∷ [] },
            )))
  unfolding after send_message
  sent-cases ctx k id sender content s =
      elim (send_message_cases lower ctx k id sender content s.0 s.1) [
        | inr (e, s', h) ↦
            inl
              (ap (λ x. x.1) h ∙ send_message_refused lower ctx k id sender content s.0 s.1 e s' h)
        | inl (p, s', h) ↦
            let (me, who, _, joined, filled, (_, stored)) =
              send_message_authorised lower ctx k id sender content s.0 s.1 p s' h in
            inr (me, requester_id_filled ctx me who, joined, filled, ap (λ x. x.1) h ∙ stored)
      ]

  gets_messages-id :
      (ctx : Context) (id : String) (limit : ℤ) (cursor : String) (s : Stores)
      → after lower users codec s (gets_messages ctx id limit cursor) ≡ s
  unfolding after get_messages MessageGrpc.get_messages get_messages_as ensure_member
      Rooms.is_member Service.get_messages Messages.list_by_room on_first on_second convert_err
      ◌>>=◌
  gets_messages-id ctx id limit cursor s = ground arith

  kept :
      {A : Type 0} (m : Exec Rooms.InMemRepository Status A)
      → ((Inv : Rooms.InMemRepository → Type 0)
          → RepositoryKeeps Inv (Rooms.inmem lower)
          → Keeps Inv m)
      → Keeps ServerValid (on_first m)
  kept m k =
      on_first-ServerValid m (k IsValid (inmem-IsValid lower))
        (λ id. k (Existing id) (inmem-Existing id lower))

  pub after-ServerValid :
      (s : Stores) (call : Rpc)
      → ServerValid s
      → Usable call
      → All (Unused call) s.1.messages
      → ServerValid (after lower users codec s call)
  unfolding after create_room get_room list_rooms search_rooms join_room leave_room
      list_room_members
  after-ServerValid s (creates_room ctx k name) v u n =
      (kept (RoomGrpc.create_room (Rooms.inmem lower) users ctx k name) (λ Inv held.
          RoomKeeps.create_room-Keeps Inv (Rooms.inmem lower) held users ctx k name)).at
        s v
  after-ServerValid s (gets_room id) v u n =
      (kept (RoomGrpc.get_room (Rooms.inmem lower) users id)
          (λ Inv held. RoomKeeps.get_room-Keeps Inv (Rooms.inmem lower) held users id)).at
        s v
  after-ServerValid s (lists_rooms ctx limit cursor) v u n =
      (kept (RoomGrpc.list_rooms (Rooms.inmem lower) users ctx limit cursor) (λ Inv held.
          RoomKeeps.list_rooms-Keeps Inv (Rooms.inmem lower) held users ctx limit cursor)).at
        s v
  after-ServerValid s (searches_rooms query limit cursor) v u n =
      (kept (RoomGrpc.search_rooms (Rooms.inmem lower) users query limit cursor) (λ Inv held.
          RoomKeeps.search_rooms-Keeps Inv (Rooms.inmem lower) held users query limit cursor)).at
        s v
  after-ServerValid s (joins_room ctx k id) v u n =
      (kept (RoomGrpc.join_room (Rooms.inmem lower) users ctx k id)
          (λ Inv held. RoomKeeps.join_room-Keeps Inv (Rooms.inmem lower) held users ctx k id)).at
        s v
  after-ServerValid s (leaves_room ctx id) v u n =
      (kept (RoomGrpc.leave_room (Rooms.inmem lower) users ctx id)
          (λ Inv held. RoomKeeps.leave_room-Keeps Inv (Rooms.inmem lower) held users ctx id)).at
        s v
  after-ServerValid s (lists_members ctx id) v u n =
      (kept (RoomGrpc.list_room_members (Rooms.inmem lower) users ctx id) (λ Inv held.
          RoomKeeps.list_room_members-Keeps Inv (Rooms.inmem lower) held users ctx id)).at
        s v
  after-ServerValid s (gets_messages ctx id limit cursor) v u n =
      rw (gets_messages-id ctx id limit cursor s) v
  after-ServerValid s (sends_message ctx k id sender content) v u n =
      elim (sent-cases ctx k id sender content s) [
        | inl e ↦ subst ServerValid (sym e) v
        | inr (me, named, joined, filled, e) ↦ subst ServerValid (sym e) (
            post-ServerValid s (new_message k id me (trim_space content)) v
              (member-Existing s.0 id me v.rooms joined, named, filled) u.0 u.1 n)
      ]

  -- the id of a new message is not drawn again
  Apart-Unused :
      (ctx : Context) (k : MessageCall) (id sender content : String) (later : Rpc) (m : Message)
      → Apart (sends_message ctx k id sender content) later
      → m.id ≡ k.uuid
      → Unused later m
  Apart-Unused ctx k id sender content (sends_message ctx' k' id' sender' content') m apart e =
      λ p. apart (sym e ∙ p)
  Apart-Unused ctx k id sender content (creates_room ctx' k' name) m apart e = tt
  Apart-Unused ctx k id sender content (gets_room id') m apart e = tt
  Apart-Unused ctx k id sender content (lists_rooms ctx' limit cursor) m apart e = tt
  Apart-Unused ctx k id sender content (searches_rooms query limit cursor) m apart e = tt
  Apart-Unused ctx k id sender content (joins_room ctx' k' id') m apart e = tt
  Apart-Unused ctx k id sender content (leaves_room ctx' id') m apart e = tt
  Apart-Unused ctx k id sender content (lists_members ctx' id') m apart e = tt
  Apart-Unused ctx k id sender content (gets_messages ctx' id' limit cursor) m apart e = tt

  -- what a later call draws is still unused
  pub after-Unused :
      (s : Stores) (call later : Rpc)
      → Apart call later
      → All (Unused later) s.1.messages
      → All (Unused later) (after lower users codec s call).1.messages
  unfolding after create_room get_room list_rooms search_rooms join_room leave_room
      list_room_members on_first
  after-Unused s (sends_message ctx k id sender content) later apart h =
      elim (sent-cases ctx k id sender content s) [
        | inl e ↦ subst (λ x. All (Unused later) x.1.messages) (sym e) h
        | inr (me, _, _, _, e) ↦
            let m = new_message k id me (trim_space content) in
            subst (λ x. All (Unused later) x.1.messages) (sym e)
              (All-append (Unused later) s.1.messages (m ∷ []) h
                (Apart-Unused ctx k id sender content later m apart refl, tt))
      ]
  after-Unused s (gets_messages ctx id limit cursor) later apart h =
      rw (gets_messages-id ctx id limit cursor s) h
  after-Unused s (creates_room ctx k name) later apart h = h
  after-Unused s (gets_room id) later apart h = h
  after-Unused s (lists_rooms ctx limit cursor) later apart h = h
  after-Unused s (searches_rooms query limit cursor) later apart h = h
  after-Unused s (joins_room ctx k id) later apart h = h
  after-Unused s (leaves_room ctx id) later apart h = h
  after-Unused s (lists_members ctx id) later apart h = h
