-- ===== src/Message/Postgres/Equivalence.antt =====
-- The Postgres repository of messages, over a table that behaves as the documentation of PostgreSQL
-- says, against the repository in memory.
use mathlib.Core.Path.{fun_ext, subst}
use go_microservices_chat.Prelude.{
  ℕ, suc, ◌+◌, ◌%◌, String, ◌≡◌, refl, ap, ◌∙◌, Bool, true, false, ◌&&◌, ◌||◌, List, [], ◌∷◌, ◌++◌,
  map, arith, ◌==◌, eqb, ltb, keep, keep_ext, take, All, All-weaken, All-intro, inl, inr,
  Bool-cases, if◌then◌else◌,
}
use go_microservices_chat.Go.Exec.{Result, ok, err, panic, Exec, ◌>>=◌, continue, lift}
use go_microservices_chat.Go.Int.{ℤ, pos, to_nat}
use go_microservices_chat.Go.Sort.{sort_slice}
use go_microservices_chat.Go.Sql.{text, time, int, Pool, scan_all}
use go_microservices_chat.Go.Strings.{str_ltb, trim_space}
use go_microservices_chat.Go.Time.{Time, InRange, unix_nano_lem}
use go_microservices_chat.Chat.Errors.{ChatError}
use go_microservices_chat.Message.Types.{Message}
use go_microservices_chat.Message.Cursor.{Cursor, Codec, is_zero, decode_cursor}
use go_microservices_chat.Message.Inmem as Memory
use go_microservices_chat.Message.Inmem.{InMemRepository, inmem, newer, wanted}
use go_microservices_chat.Message.Inmem.History.{apply_limit-take}
use go_microservices_chat.Message.Postgres as Postgres
use go_microservices_chat.Message.Postgres.{
  postgres, row_of, scan_message, insert_message, select_newest, select_before,
}
use go_microservices_chat.Message.Repository.{Repository}
use go_microservices_chat.Message.Service.{
  page, send, get_messages, Call, new_message, effective_limit,
}

-- SQL's `(a, b) < (c, d)`
abbrev pub row_less : Time → String → Time → String → Bool
row_less a b c d = if eqb a c then str_ltb b d else ltb a c

-- `ORDER BY created_at DESC, id DESC`
abbrev pub descending : Message → Message → Bool
descending a b = row_less b.created_at b.id a.created_at a.id

-- a time that a column of type TIMESTAMPTZ holds exactly
abbrev pub Whole : Time → Type 0
Whole t = t % 1000 ≡ 0

-- The table `messages` of a database, as a list in the order of insertion. `Fits` says of a message and
-- a database that the row keeps the constraints of the table, `IsUuid` that a text is a UUID as PostgreSQL
-- prints it; other texts are errors there.
pub record MessagesTable {S : Type 0} (pool : Pool S) (rows : S → List Message)
    (Fits : Message → S → Type 0) (IsUuid : String → Type 0) : Type 0 where
  pub inserts :
      (m : Message) (s : S)
      → Fits m s
      → Whole m.created_at
      → (s' : S) × (pool.exec insert_message (row_of m) s ≡ (ok 1, s'))
        × (rows s' ≡ rows s ++ m ∷ [])
  pub newest :
      (room_id : String) (n : ℕ) (s : S)
      → IsUuid room_id
      → pool.query select_newest (text room_id ∷ int (pos n) ∷ []) s ≡ (
        ok (
            map row_of
              (take n (sort_slice descending (keep (λ m. m.room_id == room_id) (rows s))))),
        s,
      )
  pub before :
      (room_id : String) (at : Time) (id : String) (n : ℕ) (s : S)
      → IsUuid room_id
      → IsUuid id
      → Whole at
      → pool.query select_before (text room_id ∷ time at ∷ text id ∷ int (pos n) ∷ []) s ≡ (
        ok (
            map row_of (
              take n (
                sort_slice descending (
                  keep (λ m. m.room_id == room_id && row_less m.created_at m.id at id) (rows s))))),
        s,
      )

descending_lem : descending ≡ newer
unfolding newer
descending_lem = fun_ext (λ a. fun_ext (λ b. ground arith))

scan-map : (l : List Message) → scan_all scan_message (map row_of l) ≡ ok l
unfolding scan_all
scan-map [] = refl
scan-map (m ∷ l) = rw (scan-map l) refl

wanted-newest :
    (room_id : String) (c : Cursor) (m : Message)
    → is_zero c ≡ true
    → (m.room_id == room_id) ≡ wanted room_id c m
unfolding wanted is_zero
wanted-newest room_id c m e = ground arith

wanted-before :
    (room_id : String) (c : Cursor) (m : Message)
    → is_zero c ≡ false
    → InRange c.created_at
    → InRange m.created_at
    → (m.room_id == room_id && row_less m.created_at m.id c.created_at c.id) ≡ wanted room_id c m
unfolding wanted Memory.less_than is_zero
wanted-before room_id c m e h k =
    ground (arith, unix_nano_lem c.created_at h, unix_nano_lem m.created_at k)

module _ {S : Type 0} (pool : Pool S) (rows : S → List Message) (Fits : Message → S → Type 0)
    (IsUuid : String → Type 0) (table : MessagesTable pool rows Fits IsUuid) (s : S)
    (r : InMemRepository) (same : rows s ≡ r.messages) where
  answer :
      (p q : Message → Bool) (n : ℕ)
      → All (λ m. p m ≡ q m) r.messages
      → scan_all scan_message (map row_of (take n (sort_slice descending (keep p (rows s)))))
        ≡ ok (take n (sort_slice newer (keep q r.messages)))
  answer p q n e =
      scan-map (take n (sort_slice descending (keep p (rows s))))
      ∙ ap (λ l. ok (take n (sort_slice descending (keep p l)))) same
      ∙ ap (λ l. ok (take n (sort_slice descending l))) (keep_ext p q r.messages e)
      ∙ ap (λ less. ok (take n (sort_slice less (keep q r.messages)))) descending_lem

  list_same :
      (room_id : String) (n : ℕ) (c : Cursor)
      → IsUuid room_id
      → All (λ m. InRange m.created_at) r.messages
      → (is_zero c ≡ false → InRange c.created_at × Whole c.created_at × IsUuid c.id)
      → Postgres.list_by_room pool room_id (pos (suc n)) c s
        ≡ ((Memory.list_by_room room_id (pos (suc n)) c r).0, s)
  unfolding Postgres.list_by_room Memory.list_by_room ◌>>=◌
  list_same room_id n c named times h = elim (Bool-cases (is_zero c)) [
    | inl e ↦
        rw (e, Postgres.list_by_room)
          (rw (table.newest room_id (suc n) s named) (
            rw
              (answer (λ m. m.room_id == room_id) (wanted room_id c) (suc n)
                (All-intro (λ m. wanted-newest room_id c m e) r.messages))
              (rw (apply_limit-take (sort_slice newer (keep (wanted room_id c) r.messages)) n)
                refl)))
    | inr e ↦
        let (range, whole, uuid) = h e in
        rw (e, Postgres.list_by_room)
          (rw (table.before room_id c.created_at c.id (suc n) s named uuid whole) (
            rw
              (answer (λ m. m.room_id == room_id && row_less m.created_at m.id c.created_at c.id)
                (wanted room_id c) (suc n)
                (All-weaken (λ m. wanted-before room_id c m e range) r.messages times))
              (rw (apply_limit-take (sort_slice newer (keep (wanted room_id c) r.messages)) n)
                refl)))
  ]

  -- what `GetMessages` does with the cursor
  abbrev pages :
      {T : Type 0}
      → Repository T
      → Codec
      → String
      → ℕ
      → Cursor
      → Exec T ChatError (List Message × String)
  pages repo codec room_id n c =
      repo.list_by_room room_id (pos (n + 1)) c >>= λ msgs. lift (page codec msgs n)

  pages_same :
      (codec : Codec) (room_id : String) (n : ℕ) (d : Result ChatError Cursor)
      → IsUuid room_id
      → All (λ m. InRange m.created_at) r.messages
      → ((c : Cursor)
          → d ≡ ok c
          → is_zero c ≡ false
          → InRange c.created_at × Whole c.created_at × IsUuid c.id)
      → continue d (pages (postgres pool) codec room_id n) s
        ≡ ((continue d (pages inmem codec room_id n) r).0, s)
  unfolding ◌>>=◌ lift Memory.list_by_room
  pages_same codec room_id n (ok c) named times h =
      ap (λ x. continue x.0 (λ msgs. lift (page codec msgs n)) x.1)
        (subst
          (λ m.
            Postgres.list_by_room pool room_id (pos m) c s
            ≡ ((Memory.list_by_room room_id (pos m) c r).0, s))
          (omega arith) (list_same room_id n c named times (h c refl)))
  pages_same codec room_id n (err e) named times h = refl
  pages_same codec room_id n panic named times h = refl

  -- With the same messages in both, a room id that is a UUID, and a cursor with a UUID and a time of
  -- whole microseconds that an `int64` holds, `GetMessages` answers over Postgres what it answers over
  -- the repository in memory, errors included, and leaves the database as it is. The times of the
  -- messages are times that an `int64` holds.
  pub get_messages_same :
      (codec : Codec) (room_id : String) (limit : ℤ) (cursor : String)
      → IsUuid room_id
      → All (λ m. InRange m.created_at) r.messages
      → ((c : Cursor)
          → decode_cursor codec cursor ≡ ok c
          → is_zero c ≡ false
          → InRange c.created_at × Whole c.created_at × IsUuid c.id)
      → get_messages (postgres pool) codec room_id limit cursor s
        ≡ ((get_messages inmem codec room_id limit cursor r).0, s)
  unfolding get_messages ◌>>=◌
  get_messages_same codec room_id limit cursor named times h = elim (Bool-cases (room_id == "")) [
    | inl e ↦ rw (e, get_messages) refl
    | inr e ↦
        rw (e, get_messages)
          (pages_same codec room_id (to_nat (effective_limit limit)) (decode_cursor codec cursor)
            named times h)
  ]

  -- With the same messages in both, and a row that keeps the constraints of the table, `Send` answers
  -- over Postgres what it answers over the repository in memory, errors included, and both have the
  -- same messages afterwards.
  pub send_same :
      (k : Call) (room_id sender_id content : String)
      → Fits (new_message k room_id sender_id (trim_space content)) s
      → Whole k.now
      → ((send (postgres pool) k room_id sender_id content s).0
          ≡ (send inmem k room_id sender_id content r).0)
        × (rows (send (postgres pool) k room_id sender_id content s).1
            ≡ (send inmem k room_id sender_id content r).1.messages)
  unfolding send ◌>>=◌ Postgres.insert Memory.insert
  send_same k room_id sender_id content fits whole =
      let m = new_message k room_id sender_id (trim_space content) in
      let (s', at, stored) = table.inserts m s fits whole in
      elim (Bool-cases (sender_id == "" || room_id == "")) [
        | inl e ↦ rw (e, send) (refl, same)
        | inr e ↦ elim (Bool-cases (trim_space content == "")) [
          | inl blank ↦ rw (e, send) (rw (blank, send) (refl, same))
          | inr text' ↦
              rw (e, send)
                (rw (text', send) (rw (at, send) (refl, stored ∙ ap (λ l. l ++ m ∷ []) same)))
        ]
      ]
