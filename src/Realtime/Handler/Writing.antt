-- ===== src/Realtime/Handler/Writing.antt =====
-- `writeLoop` of services/realtime-service/internal/ws/handler.go, on the channel of a client to which
-- nothing more is sent.
use mathlib.Core.List.{append-nil}
use go_microservices_chat.Prelude.{
  ℕ, String, ◌≡◌, ◌⊎◌, refl, ap, ◌∙◌, Bool, true, false, List, [], ◌∷◌, ◌++◌, arith, inl, inr,
  Bool-cases, Option-cases, if◌then◌else◌,
}
use go_microservices_chat.Go.Dict
use go_microservices_chat.Go.Exec.{ok}
use go_microservices_chat.Realtime.Hub.{
  Hub, Client, Channel, unregisters, step, drop_client, set, has, shrink, without,
}
use go_microservices_chat.Realtime.Hub.Open.{IsValid, Subscribed, has-All}
use go_microservices_chat.Realtime.Hub.Order.{room_of}

-- how the loop stands: it has returned since its context ended, since the channel was closed or since a
-- frame could not be written, or it waits in its `select`
pub data Standing : Type 0 where
  cancelled channel_closed failed waiting : Standing

pub record Written : Type 0 where
  pub frames : List String
  pub left : List String
  pub standing : Standing

-- `cancel` says, by what is in the channel, whether `select` takes the end of the context, and `write`
-- whether a frame could be written
module _ (cancel : List String → Bool) (write : String → Bool) where
  unfoldable write_rest : Bool → List String → Written
  write_rest closed [] =
      if cancel []
      then record { frames = []; left = []; standing = cancelled }
      else record { frames = []; left = []; standing = if closed then channel_closed else waiting }
  write_rest closed (b ∷ rest) =
      let more = write_rest closed rest in
      if cancel (b ∷ rest)
      then record { frames = []; left = b ∷ rest; standing = cancelled }
      else if write b
      then record more { frames = b ∷ more.frames }
      else record { frames = []; left = rest; standing = failed }

  unfoldable pub write_loop : Channel → Written
  unfolding write_rest
  write_loop ch = write_rest ch.closed ch.buffer

  -- before `rest`, all these frames could be written, and `select` took each of them
  abbrev pub Passed : List String → List String → Type 0
  Passed [] rest = Unit
  Passed (b ∷ frames) rest =
      (cancel ((b ∷ frames) ++ rest) ≡ false) × (write b ≡ true) × Passed frames rest

  -- the end of the loop: the context had ended before what is left, or the frame before it could not be
  -- written, or the channel is empty
  abbrev pub Ended : Bool → List String → Written → Type 0
  Ended closed buffer w =
      ((w.standing ≡ cancelled)
        × (w.frames ++ w.left ≡ buffer)
        × Passed w.frames w.left
        × (cancel w.left ≡ true))
      ⊎ (((b : String) × (w.standing ≡ failed)
            × (w.frames ++ b ∷ w.left ≡ buffer)
            × Passed w.frames (b ∷ w.left)
            × (cancel (b ∷ w.left) ≡ false)
            × (write b ≡ false))
          ⊎ ((w.standing ≡ (if closed then channel_closed else waiting))
              × (w.frames ≡ buffer)
              × (w.left ≡ [])
              × Passed w.frames []
              × (cancel [] ≡ false)))

  -- a frame more that `select` took and that could be written
  one_more :
      (closed : Bool) (b : String) (rest : List String) (w : Written)
      → cancel (b ∷ rest) ≡ false
      → write b ≡ true
      → Ended closed rest w
      → Ended closed (b ∷ rest) (record w { frames = b ∷ w.frames })
  one_more closed b rest w taken fine ended = elim ended [
    | inl (stands, all, passed, over) ↦
        inl (stands, ap (◌∷◌ b) all, (ap (λ l. cancel (b ∷ l)) all ∙ taken, fine, passed), over)
    | inr (inl (lost, stands, all, passed, over, broken)) ↦
        let taken' = ap (λ l. cancel (b ∷ l)) all ∙ taken in
        inr (inl (lost, stands, ap (◌∷◌ b) all, (taken', fine, passed), over, broken))
    | inr (inr (stands, all, empty, passed, on)) ↦
        let taken' = ap (λ l. cancel (b ∷ l)) (append-nil w.frames ∙ all) ∙ taken in
        inr (inr (stands, ap (◌∷◌ b) all, empty, (taken', fine, passed), on))
  ]

  write_rest-Ended :
      (closed : Bool) (buffer : List String) → Ended closed buffer (write_rest closed buffer)
  unfolding write_rest
  write_rest-Ended closed [] = elim (Bool-cases (cancel [])) [
    | inl e ↦ rw (e, write_rest) (inl (refl, refl, tt, e))
    | inr e ↦ rw (e, write_rest) (inr (inr (refl, refl, refl, tt, refl)))
  ]
  write_rest-Ended closed (b ∷ rest) = elim (Bool-cases (cancel (b ∷ rest))) [
    | inl e ↦ rw (e, write_rest) (inl (refl, refl, tt, e))
    | inr e ↦ elim (Bool-cases (write b)) [
      | inr e' ↦ rw (e, write_rest) (rw (e', write_rest) (inr (inl (b, refl, refl, tt, e, e'))))
      | inl e' ↦
          rw (e, write_rest)
            (rw (e', write_rest)
              (one_more closed b rest (write_rest closed rest) e e' (write_rest-Ended closed rest)))
    ]
  ]

  -- `Run` takes a client out that is in the hub: what waited in its channel stays there, and the channel
  -- is closed
  shut_down :
      (clients : ℕ → Client) (h : Hub) (k : ℕ)
      → IsValid clients h
      → has k (room_of clients k h) ≡ true
      → (h' : Hub) × (step clients (unregisters k) h ≡ (ok tt, h'))
        × (h'.channels k ≡ record (h.channels k) { closed = true })
  unfolding step drop_client
  shut_down clients h k v here = elim (Option-cases (Dict.get h.rooms (clients k).room_id)) [
    | inl e ↦ absurd (ground arith)
    | inr (subs, e) ↦
        let inside : has k subs ≡ true = ground arith in
        let room_id = (clients k).room_id in
        let open' =
          (has-All (Subscribed clients h.channels room_id) k subs inside
            (v.subscribed room_id subs e)).1 in
        (
          record {
            rooms = shrink h.rooms room_id (without k subs);
            channels = set h.channels k (record (h.channels k) { closed = true });
          },
          rw (e, step) (rw (inside, step) (rw (open', step) refl)),
          ground arith,
        )
  ]

  -- When `Run` takes a client out of the hub, the write loop of its connection returns, and handles the
  -- payloads that waited in the channel in order. Every frame that it writes could be written. It
  -- returns since the context has ended, with the rest left in the channel; or at the first frame that
  -- cannot be written, which is lost, with those behind it left; or since the channel is closed, and
  -- then everything that waited has been written.
  pub unregistered-returns :
      (clients : ℕ → Client) (h : Hub) (k : ℕ)
      → IsValid clients h
      → has k (room_of clients k h) ≡ true
      → (h' : Hub) × (step clients (unregisters k) h ≡ (ok tt, h'))
        × Ended true (h.channels k).buffer (write_loop (h'.channels k))
  unfolding write_loop
  unregistered-returns clients h k v here =
      let (h', at, shut) = shut_down clients h k v here in
      (h', at, rw shut (write_rest-Ended true (h.channels k).buffer))
