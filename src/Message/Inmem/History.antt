-- ===== src/Message/Inmem/History.antt =====
-- The history of a room, newest first, and what is left of it behind a cursor.
use mathlib.Core.Path.{subst}
use go_microservices_chat.Prelude.{
  ℕ, suc, String, ◌≡◌, sym, ap, ◌∙◌, ◌≢◌, ◌&&◌, true, List, [], ◌∷◌, ◌++◌, arith, ◌==◌, eq_iff, inl,
  inr, Bool-cases, All, length, ltb, take, keep, keep_and, keep_everything, take_of_length-le,
  All-weaken, All-zip, All-intro, All-keep, All_middle, keep_ext,
}
use go_microservices_chat.Go.Exec.{ok}
use go_microservices_chat.Go.Int.{pos}
use go_microservices_chat.Go.Sort.{
  sort_slice, sort_slice-All, sort_slice-IsSorted, keep-sort_slice, IsSorted, Pairwise,
  Pairwise-keep, Pairwise-sort_slice,
}
use go_microservices_chat.Go.Time.{InRange, unix_nano_lem}
use go_microservices_chat.Message.Types.{Message}
use go_microservices_chat.Message.Cursor.{Cursor, zero_cursor, is_zero}
use go_microservices_chat.Message.Inmem.{
  InMemRepository, newer, less_than, wanted, apply_limit, list_by_room,
}
use go_microservices_chat.Message.Order.{newer_irrefl, newer_asym, newer_not_trans, newer_total}

-- the messages of a room, newest first
unfoldable pub history : String → InMemRepository → List Message
history room_id r = sort_slice newer (keep (λ m. m.room_id == room_id) r.messages)

-- ids are not empty and pairwise different, and the times are those that an `int64` holds
abbrev pub DistinctIds : Message → Message → Type 0
DistinctIds a b = a.id ≢ b.id

pub record IsValid (r : InMemRepository) : Type 0 where
  pub distinct : Pairwise DistinctIds r.messages
  pub ids : All (λ m. m.id ≢ "") r.messages
  pub times : All (λ m. InRange m.created_at) r.messages

abbrev pub cursor_of : Message → Cursor
cursor_of m = record { created_at = m.created_at; id = m.id }

-- every message of the list is newer than those after it
abbrev pub Descends : List Message → Type 0
Descends = Pairwise (λ a b. newer a b ≡ true)

descends : (l : List Message) → IsSorted newer l → Pairwise DistinctIds l → Descends l
descends [] s d = tt
descends (a ∷ l) s d = (All-zip (λ b. newer_total a b) l d.0 s.0, descends l s.1 d.1)

pub history-Descends :
    (room_id : String) (r : InMemRepository) → IsValid r → Descends (history room_id r)
unfolding history
history-Descends room_id r v =
    let l = keep (λ m. m.room_id == room_id) r.messages in
    descends (sort_slice newer l) (sort_slice-IsSorted newer newer_asym newer_not_trans l) (
      Pairwise-sort_slice DistinctIds newer (λ a b ne e. ne (sym e)) l
        (Pairwise-keep DistinctIds (λ m. m.room_id == room_id) r.messages v.distinct))

pub history-All :
    (P : Message → Type 0) (room_id : String) (r : InMemRepository)
    → All P r.messages
    → All P (history room_id r)
unfolding history
history-All P room_id r h =
    sort_slice-All newer P (keep (λ m. m.room_id == room_id) r.messages)
      (All-keep P (λ m. m.room_id == room_id) r.messages h)

-- a cut of a descending list
keep-Descends :
    (front : List Message) (last : Message) (back : List Message)
    → Descends (front ++ last ∷ back)
    → keep (newer last) (front ++ last ∷ back) ≡ back
keep-Descends [] last back d =
    let rest = keep_everything (newer last) back d.0 in
    let self = newer_irrefl last in ground (arith, rest, self)
keep-Descends (m ∷ front) last back d =
    let above = All_middle (λ x. newer m x ≡ true) front last back d.0 in
    ground (arith, newer_asym m last above, keep-Descends front last back d.1)

pub apply_limit-take : (l : List Message) (n : ℕ) → apply_limit l (pos (suc n)) ≡ take (suc n) l
unfolding apply_limit
apply_limit-take l n = elim (Bool-cases (ltb (suc n) (length l))) [
  | inl e ↦ ground arith
  | inr e ↦ ground (arith, take_of_length-le (suc n) l (ground arith))
]

zero_wanted :
    (room_id : String) (m : Message) → wanted room_id zero_cursor m ≡ (m.room_id == room_id)
unfolding wanted is_zero
zero_wanted room_id m = ground arith

-- nothing of a room comes before the zero cursor
pub list_by_room-zero :
    (room_id : String) (n : ℕ) (r : InMemRepository)
    → list_by_room room_id (pos (suc n)) zero_cursor r ≡ (ok (take (suc n) (history room_id r)), r)
unfolding history list_by_room
list_by_room-zero room_id n r =
    rw
      (keep_ext (wanted room_id zero_cursor) (λ m. m.room_id == room_id) r.messages
        (All-intro (λ m. zero_wanted room_id m) r.messages))
      (rw (apply_limit-take (sort_slice newer (keep (λ m. m.room_id == room_id) r.messages)) n))

wanted_lem :
    (room_id : String) (last m : Message)
    → last.id ≢ ""
    → InRange last.created_at
    → InRange m.created_at
    → wanted room_id (cursor_of last) m ≡ (m.room_id == room_id && newer last m)
unfolding wanted less_than is_zero newer
wanted_lem room_id last m named h k =
    ground (arith, eq_iff last.id "", unix_nano_lem last.created_at h, unix_nano_lem m.created_at k)

-- what holds of every message holds of one in the history
pub history_at :
    (P : Message → Type 0) (room_id : String) (r : InMemRepository) (front back : List Message)
    (last : Message)
    → history room_id r ≡ front ++ last ∷ back
    → All P r.messages
    → P last
history_at P room_id r front back last e h =
    All_middle P front last back (subst (All P) e (history-All P room_id r h))

history_after :
    (room_id : String) (r : InMemRepository) (front back : List Message) (last : Message)
    → IsValid r
    → history room_id r ≡ front ++ last ∷ back
    → keep (newer last) (sort_slice newer (keep (λ m. m.room_id == room_id) r.messages)) ≡ back
unfolding history
history_after room_id r front back last v e =
    ap (keep (newer last)) e
    ∙ keep-Descends front last back (subst Descends e (history-Descends room_id r v))

-- behind the cursor of a message of the history are the messages after it
pub list_by_room-after :
    (room_id : String) (n : ℕ) (r : InMemRepository) (front back : List Message) (last : Message)
    → IsValid r
    → history room_id r ≡ front ++ last ∷ back
    → list_by_room room_id (pos (suc n)) (cursor_of last) r ≡ (ok (take (suc n) back), r)
unfolding list_by_room
list_by_room-after room_id n r front back last v e =
    let named = history_at (λ m. m.id ≢ "") room_id r front back last e v.ids in
    let timed = history_at (λ m. InRange m.created_at) room_id r front back last e v.times in
    let same =
      keep_ext (wanted room_id (cursor_of last)) (λ m. m.room_id == room_id && newer last m)
        r.messages (All-weaken (λ m. wanted_lem room_id last m named timed) r.messages v.times) in
    rw (same ∙ keep_and (λ m. m.room_id == room_id) (newer last) r.messages) (
      rw
        (← keep-sort_slice newer newer_asym newer_not_trans (newer last)
          (keep (λ m. m.room_id == room_id) r.messages))
        (rw (history_after room_id r front back last v e) (rw (apply_limit-take back n))))
