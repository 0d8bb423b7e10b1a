-- ===== src/Message/Service/Pages.antt =====
-- The pages of `GetMessages`.
use go_microservices_chat.Prelude.{
  keep, All, ℕ, zero, suc, ◌≤◌, ◌<◌, String, ◌≡◌, refl, sym, ap, ◌∙◌, ◌≢◌, ◌⊎◌, Option, none, some,
  List, [], ◌∷◌, ◌++◌, arith, ◌==◌, eq_iff, inl, inr, Bool-cases, length, ltb, take, drop,
  get_elem?, if◌then◌else◌, length-take, length-drop, take-append-drop, take_of_length-le,
}
use mathlib.Core.Option.{map}
use mathlib.Core.List.{append_assoc, Perm}
use go_microservices_chat.Go.Base64.{
  encode_to_string, decode_string-encode_to_string, encode_to_string_filled,
}
use go_microservices_chat.Go.Exec.{Result, ok, err, panic, ◌>>=◌}
use go_microservices_chat.Go.Sort.{sort_slice-perm}
use go_microservices_chat.Go.Int.{ℤ, pos, negsuc, to_nat}
use go_microservices_chat.Chat.Errors.{ChatError}
use go_microservices_chat.Message.Types.{Message}
use go_microservices_chat.Message.Cursor.{
  Cursor, WireCursor, Codec, zero_cursor, is_zero, encode_cursor, decode_cursor,
}
use go_microservices_chat.Message.Inmem.{InMemRepository, inmem, list_by_room, newer}
use go_microservices_chat.Message.Inmem.History.{
  IsValid, Descends, history, history-Descends, history_at, cursor_of, list_by_room-zero,
  list_by_room-after,
}
use go_microservices_chat.Message.Service.{page, effective_limit, get_messages}

-- what encoding/json promises for the cursor of a message whose time it can write: there are bytes, and
-- reading them gives back what was written
abbrev pub RoundTrips : Codec → Message → Type 0
RoundTrips codec m =
    let w : WireCursor = record { c = m.created_at; i = m.id } in
    (b : ℕ) × (l : List ℕ) × (codec.marshal w ≡ some (b ∷ l))
    × All (λ c. c < 256) (b ∷ l)
    × (codec.unmarshal (b ∷ l) ≡ ok w)

-- The cursor of a message that has an id is read back as it was written, and is not empty, so that it
-- is not taken for the start.
pub decode_cursor-encode_cursor :
    (codec : Codec) (m : Message)
    → RoundTrips codec m
    → m.id ≢ ""
    → (decode_cursor codec (encode_cursor codec (cursor_of m)) ≡ ok (cursor_of m))
      × (encode_cursor codec (cursor_of m) ≢ "")
unfolding decode_cursor encode_cursor is_zero
decode_cursor-encode_cursor codec m (b, l, e, all, back) named =
    let text = decode_string-encode_to_string (b ∷ l) all in
    let filled = encode_to_string_filled b l in
    (
      ground (arith, eq_iff m.id "", eq_iff (encode_to_string (b ∷ l)) ""),
      ground (arith, eq_iff m.id "", eq_iff (encode_to_string (b ∷ l)) ""),
    )

append_middle : {A : Type 0} (l : List A) (x : A) (l' : List A) → (l ++ x ∷ []) ++ l' ≡ l ++ x ∷ l'
append_middle [] x l' = refl
append_middle (y ∷ l) x l' = ap (◌∷◌ y) (append_middle l x l')

-- the first `n` of more than `n` elements
module _ {A : Type 0} where
  take_more :
      (n : ℕ) (l : List A)
      → suc n ≤ length l
      → (front : List A) × (last : A) × (take (suc n) l ≡ front ++ last ∷ [])
        × (get_elem? l n ≡ some last)
  take_more n [] h = absurd (omega arith)
  take_more zero (x ∷ l) h = ([], x, refl, refl)
  take_more (suc n) (x ∷ l) h =
      let (front, last, e, at) = take_more n l (omega arith) in (x ∷ front, last, ap (◌∷◌ x) e, at)

  take-take-suc : (n : ℕ) (l : List A) → take n (take (suc n) l) ≡ take n l
  take-take-suc zero l = refl
  take-take-suc (suc n) [] = refl
  take-take-suc (suc n) (x ∷ l) = ap (◌∷◌ x) (take-take-suc n l)

  get_elem-take : (n i : ℕ) (l : List A) → i < n → get_elem? (take n l) i ≡ get_elem? l i
  get_elem-take zero i l h = absurd (omega arith)
  get_elem-take (suc n) i [] h = refl
  get_elem-take (suc n) zero (x ∷ l) h = refl
  get_elem-take (suc n) (suc i) (x ∷ l) h = get_elem-take n i l (omega arith)

pub effective_limit_pos : (limit : ℤ) → (n : ℕ) × (to_nat (effective_limit limit) ≡ suc n)
unfolding effective_limit
effective_limit_pos (negsuc n) = (49, refl)
effective_limit_pos (pos zero) = (49, refl)
effective_limit_pos (pos (suc n)) = elim (Bool-cases (ltb 200 (suc n))) [
  | inl e ↦ (199, ground arith)
  | inr e ↦ (n, ground arith)
]

page_last :
    (codec : Codec) (l : List Message) (n : ℕ)
    → length l ≤ suc n
    → page codec (take (suc (suc n)) l) (suc n) ≡ ok (l, "")
unfolding page
page_last codec l n h = ground (arith, take_of_length-le (suc (suc n)) l)

page_more :
    (codec : Codec) (l : List Message) (n : ℕ)
    → suc n < length l
    → (front : List Message) × (last : Message) × (take (suc n) l ≡ front ++ last ∷ [])
      × (page codec (take (suc (suc n)) l) (suc n)
          ≡ ok (take (suc n) l, encode_cursor codec (cursor_of last)))
unfolding page
page_more codec l n h =
    let (front, last, e, at) = take_more n l (omega arith) in
    (
      front,
      last,
      e,
      ground (
        arith,
        length-take (suc (suc n)) l,
        take-take-suc (suc n) l,
        get_elem-take (suc (suc n)) n l,
      ),
    )

module _ (codec : Codec) (room_id : String) (limit : ℤ) (r : InMemRepository) where
  -- the text is the cursor behind `front`
  abbrev Behind : List Message → String → Type 0
  Behind front cursor =
      ((front ≡ []) × (cursor ≡ ""))
      ⊎ ((init : List Message) × (last : Message) × (front ≡ init ++ last ∷ [])
          × (cursor ≡ encode_cursor codec (cursor_of last)))

  -- a client that asks for page after page, until it gets no cursor
  abbrev follow :
      Result ChatError (List Message × String)
      → (String → Option (List Message))
      → Option (List Message)
  follow (ok (msgs, next)) rest = if next == "" then some msgs else map (λ l. msgs ++ l) (rest next)
  follow (err e) rest = none
  follow panic rest = none

  unfoldable pub walk : ℕ → String → Option (List Message)
  walk zero cursor = none
  walk (suc fuel) cursor = follow (get_messages inmem codec room_id limit cursor r).0 (walk fuel)

  module _ (v : IsValid r) (f : All (RoundTrips codec) r.messages) (named : room_id ≢ "") where
    get_messages_lem :
        (cursor : String) (cur : Cursor) (l : List Message)
        → decode_cursor codec cursor ≡ ok cur
        → ((n : ℕ) → list_by_room room_id (pos (suc n)) cur r ≡ (ok (take (suc n) l), r))
        → let n = to_nat (effective_limit limit) in
          get_messages inmem codec room_id limit cursor r ≡ (page codec (take (suc n) l) n, r)
    unfolding get_messages ◌>>=◌
    get_messages_lem cursor cur l e at =
        ground (arith, eq_iff room_id "", at (to_nat (effective_limit limit)))

    get_messages-Behind :
        (front back : List Message) (cursor : String)
        → history room_id r ≡ front ++ back
        → Behind front cursor
        → let n = to_nat (effective_limit limit) in
          get_messages inmem codec room_id limit cursor r ≡ (page codec (take (suc n) back) n, r)
    unfolding decode_cursor
    get_messages-Behind front back cursor e (inl (empty, start)) =
        get_messages_lem cursor zero_cursor back (rw start) (λ n.
          list_by_room-zero room_id n r
          ∙ ap (λ l. (ok (take (suc n) l), r)) (e ∙ ap (λ l. l ++ back) empty))
    get_messages-Behind front back cursor e (inr (init, last, split, at)) =
        let whole = e ∙ ap (λ l. l ++ back) split ∙ append_middle init last back in
        let named = history_at (λ m. m.id ≢ "") room_id r init back last whole v.ids in
        let trips = history_at (RoundTrips codec) room_id r init back last whole f in
        let (read, _) = decode_cursor-encode_cursor codec last trips named in
        get_messages_lem cursor (cursor_of last) back (ap (decode_cursor codec) at ∙ read)
          (λ n. list_by_room-after room_id n r init back last v whole)

    next_cursor :
        (front : List Message) (last : Message) (back : List Message)
        → history room_id r ≡ front ++ last ∷ back
        → encode_cursor codec (cursor_of last) ≢ ""
    next_cursor front last back e =
        (decode_cursor-encode_cursor codec last
          (history_at (RoundTrips codec) room_id r front back last e f)
          (history_at (λ m. m.id ≢ "") room_id r front back last e v.ids)).1

    walk-Behind :
        (fuel : ℕ) (front back : List Message) (cursor : String)
        → history room_id r ≡ front ++ back
        → Behind front cursor
        → length back < fuel
        → walk fuel cursor ≡ some back
    unfolding walk
    walk-Behind zero front back cursor e b h = absurd (omega arith)
    walk-Behind (suc fuel) front back cursor e b h =
        let (n, size) = effective_limit_pos limit in
        let got = get_messages-Behind front back cursor e b in
        elim (Bool-cases (ltb (suc n) (length back))) [
          | inr small ↦ ground (arith, page_last codec back n (ground arith))
          | inl large ↦
              let (init, last, cut, paged) = page_more codec back n (ground arith) in
              let whole =
                e
                ∙ ap (λ l. front ++ l) (sym (take-append-drop (suc n) back))
                ∙ sym (append_assoc front (take (suc n) back) (drop (suc n) back)) in
              let split = ap (λ l. front ++ l) cut ∙ sym (append_assoc front init (last ∷ [])) in
              let next = encode_cursor codec (cursor_of last) in
              let filled = next_cursor (front ++ init) last (drop (suc n) back) (
                whole
                ∙ ap (λ l. l ++ drop (suc n) back) split
                ∙ append_middle (front ++ init) last (drop (suc n) back)) in
              let rest =
                walk-Behind fuel (front ++ take (suc n) back) (drop (suc n) back) next whole
                  (inr (front ++ init, last, split, refl))
                  (ground (arith, length-drop (suc n) back)) in
              ground (arith, eq_iff next "", take-append-drop (suc n) back)
        ]

    -- A client that asks for page after page, with any limit and starting without a cursor, gets to the
    -- end, and has then received every message of the room exactly once, newest first. The hypotheses:
    -- the messages have different ids that are not empty, and times of the years 1678 to 2262, the
    -- JSON texts of their cursors can be read back, and the room id is not empty.
    pub walk_complete :
        (fuel : ℕ)
        → length (history room_id r) < fuel
        → (l : List Message) × (walk fuel "" ≡ some l)
          × Descends l
          × Perm l (keep (λ m. m.room_id == room_id) r.messages)
    unfolding history
    walk_complete fuel h = (
      history room_id r,
      walk-Behind fuel [] (history room_id r) "" refl (inl (refl, refl)) h,
      history-Descends room_id r v,
      sort_slice-perm newer (keep (λ m. m.room_id == room_id) r.messages),
    )
