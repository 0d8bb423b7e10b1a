-- ===== src/Message/Grpc/Authorisation.antt =====
-- Who may send to a room and read it.
use Prim.Native.Char.{Char}
use go_microservices_chat.Prelude.{
  String, ◌≡◌, refl, ◌≢◌, ◌⊎◌, not, ◌&&◌, none, some, [], ◌∷◌, ◌++◌, arith, ◌==◌, eq_iff, inl, inr,
  Option-cases, Bool-cases,
}
use go_microservices_chat.Go.Dict
use go_microservices_chat.Go.Dict.Laws.{get-empty}
use go_microservices_chat.Go.Exec.{
  panic, Result, Result, ok, err, on_first, on_second, ◌>>=◌, convert_err,
}
use go_microservices_chat.Go.Int.{ℤ}
use go_microservices_chat.Go.Status.{Status, permission_denied}
use go_microservices_chat.Go.Strings.{trim_space}
use go_microservices_chat.Go.Time.{Time}
use go_microservices_chat.Auth.Context.{Context, requester_id}
use go_microservices_chat.Chat.Errors.{room_error, not_member}
use go_microservices_chat.Room.Inmem as Rooms
use go_microservices_chat.Room.Inmem.{members_of}
use go_microservices_chat.Room.Service.{ensure_member}
use go_microservices_chat.Message.Cursor.{Codec}
use go_microservices_chat.Message.Inmem as Messages
use go_microservices_chat.Message.Service
use go_microservices_chat.Message.Service.{Call, new_message}
use go_microservices_chat.Message.Grpc.{
  MessageProto, to_proto, map_error, impersonated, send_message, send_message_as, get_messages,
  get_messages_as,
}

Outcome-cases :
    {S E A : Type 0} (x : Result E A × S)
    → ((s : S) → x ≢ (panic, s))
    → ((a : A) × (s : S) × (x ≡ (ok a, s))) ⊎ ((e : E) × (s : S) × (x ≡ (err e, s)))
Outcome-cases (ok a, s) h = inl (a, s, refl)
Outcome-cases (err e, s) h = inr (e, s, refl)
Outcome-cases (panic, s) h = absurd (h s refl)

-- the rooms and the messages of one service
abbrev pub Stores : Type 0
Stores = Rooms.InMemRepository × Messages.InMemRepository

module _ (lower : Char → Char) (ctx : Context) (k : Call) (room_id sender_id content : String)
    (rooms : Rooms.InMemRepository) (r : Messages.InMemRepository) where
  abbrev pub sent : Result Status MessageProto × Stores
  sent = send_message (Rooms.inmem lower) Messages.inmem ctx k room_id sender_id content (rooms, r)

  -- A message that is accepted comes from a known caller, who did not claim to be somebody else and is
  -- a member of the room. It is stored behind the others, under the caller's own id, with the
  -- trimmed content, which is not blank.
  pub send_message_authorised :
      (p : MessageProto) (s : Stores)
      → sent ≡ (ok p, s)
      → (me : String) × (requester_id ctx ≡ some me)
        × ((sender_id ≡ "") ⊎ (sender_id ≡ me))
        × (Dict.get (members_of rooms room_id) me ≢ none)
        × (trim_space content ≢ "")
        × (let m = new_message k room_id me (trim_space content) in
            (p ≡ to_proto m) × (s ≡ (rooms, record { messages = r.messages ++ m ∷ [] })))
  unfolding send_message send_message_as ensure_member Rooms.is_member Messages.insert Service.send
      on_first on_second convert_err ◌>>=◌
  send_message_authorised p s e = elim (Option-cases (requester_id ctx)) [
    | inl none' ↦ absurd (ground arith)
    | inr (me, who) ↦ (
      me,
      who,
      elim (Bool-cases (sender_id == "")) [
        | inl e ↦ inl ((eq_iff sender_id "").0 e)
        | inr f ↦ inr (ground (arith, eq_iff sender_id me))
      ],
      ground (arith, get-empty {V = Time} me),
      ground (arith, eq_iff (trim_space content) ""),
      (ground arith, ground arith),
    )
  ]

  -- A message that is refused leaves both stores as they were.
  pub send_message_refused : (e : Status) (s : Stores) → sent ≡ (err e, s) → s ≡ (rooms, r)
  unfolding send_message send_message_as ensure_member Rooms.is_member Messages.insert Service.send
      on_first on_second convert_err ◌>>=◌
  send_message_refused e s h = ground arith

  send_message-ne-panic : (s : Stores) → sent ≢ (panic, s)
  unfolding send_message send_message_as ensure_member Rooms.is_member Messages.insert Service.send
      on_first on_second convert_err ◌>>=◌
  send_message-ne-panic s h = ground arith

  -- the two ways in which a call ends
  pub send_message_cases :
      ((p : MessageProto) × (s : Stores) × (sent ≡ (ok p, s)))
      ⊎ ((e : Status) × (s : Stores) × (sent ≡ (err e, s)))
  send_message_cases = Outcome-cases sent send_message-ne-panic

  -- A known member of the room, who names nobody else as the sender, can send any content that is not
  -- blank.
  pub send_message_lem :
      (me : String) (at : Time)
      → requester_id ctx ≡ some me
      → (sender_id ≡ "") ⊎ (sender_id ≡ me)
      → Dict.get (members_of rooms room_id) me ≡ some at
      → me ≢ ""
      → room_id ≢ ""
      → trim_space content ≢ ""
      → let m = new_message k room_id me (trim_space content) in
        sent ≡ (ok (to_proto m), (rooms, record { messages = r.messages ++ m ∷ [] }))
  unfolding send_message send_message_as ensure_member Rooms.is_member Messages.insert Service.send
      on_first on_second convert_err ◌>>=◌
  send_message_lem me at who (inl free) joined ne named filled = ground (
    arith,
    eq_iff sender_id "",
    eq_iff me "",
    eq_iff room_id "",
    eq_iff (trim_space content) "",
    get-empty {V = Time} me,
  )
  send_message_lem me at who (inr own) joined ne named filled = ground (
    arith,
    eq_iff sender_id me,
    eq_iff me "",
    eq_iff room_id "",
    eq_iff (trim_space content) "",
    get-empty {V = Time} me,
  )

  -- Who is not a member of the room can neither send to it nor read it: a known caller gets the code
  -- `PermissionDenied` and the stores stay as they were.
  pub not_member_denied :
      (codec : Codec) (limit : ℤ) (cursor me : String)
      → requester_id ctx ≡ some me
      → Dict.get (members_of rooms room_id) me ≡ none
      → (e e' : Status) × (sent ≡ (err e, (rooms, r)))
        × (get_messages (Rooms.inmem lower) Messages.inmem codec ctx room_id limit cursor (rooms, r)
            ≡ (err e', (rooms, r)))
        × (e.code ≡ permission_denied)
        × (e'.code ≡ permission_denied)
  unfolding send_message send_message_as get_messages get_messages_as ensure_member Rooms.is_member
      map_error on_first on_second convert_err ◌>>=◌
  not_member_denied codec limit cursor me who out =
      let outsider = map_error (room_error not_member) in
      elim (Bool-cases (not (sender_id == "") && not (sender_id == me))) [
        | inl e ↦ (
          impersonated,
          outsider,
          ground arith,
          ground (arith, get-empty {V = Time} me),
          refl,
          refl,
        )
        | inr e ↦ (
          outsider,
          outsider,
          ground (arith, get-empty {V = Time} me),
          ground (arith, get-empty {V = Time} me),
          refl,
          refl,
        )
      ]
