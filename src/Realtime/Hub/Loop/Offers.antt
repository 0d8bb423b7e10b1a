-- ===== src/Realtime/Hub/Loop/Offers.antt =====
-- What is offered to the channel of a client goes behind what waits there, as far as there is room.
use mathlib.Core.List.{append_assoc}
use go_microservices_chat.Prelude.{
  ℕ, zero, suc, String, ◌≡◌, refl, sym, ap, ◌∙◌, List, [], ◌∷◌, ◌++◌, arith, ltb, length, take, inl,
  inr, Bool-cases,
}
use go_microservices_chat.Realtime.Hub.{Channel, offer}
use go_microservices_chat.Realtime.Hub.Tidy.{Holds}

take_full : (l l' : List String) (n : ℕ) → length l ≡ n → take n (l ++ l') ≡ l
take_full [] l' zero e = refl
take_full [] l' (suc n) e = absurd (omega arith)
take_full (a ∷ l) l' zero e = absurd (omega arith)
take_full (a ∷ l) l' (suc n) e = ap (◌∷◌ a) (take_full l l' n (omega arith))

pub offer_capacity : (payload : String) (ch : Channel) → (offer payload ch).capacity ≡ ch.capacity
unfolding offer
offer_capacity payload ch = ground arith

-- what is offered goes behind what waits, as far as there is room
pub take-offer :
    (payload : String) (ch : Channel) (later : List String)
    → Holds ch
    → take ch.capacity ((offer payload ch).buffer ++ later)
      ≡ take ch.capacity (ch.buffer ++ payload ∷ later)
unfolding offer
take-offer payload ch later h = elim (Bool-cases (ltb (length ch.buffer) ch.capacity)) [
  | inl e ↦ rw e (ap (take ch.capacity) (append_assoc ch.buffer (payload ∷ []) later))
  | inr e ↦
      let full : length ch.buffer ≡ ch.capacity = ground arith in
      rw e (
        take_full ch.buffer later ch.capacity full
        ∙ sym (take_full ch.buffer (payload ∷ later) ch.capacity full))
]
