-- ===== src/Chat/Server/Reachable.antt =====
-- What holds of the stores of the chat service after any calls.
use Prim.Native.Char.{Char}
use go_microservices_chat.Prelude.{
  ℕ, ◌<◌, length, keep, String, ◌≡◌, ◌≢◌, some, List, [], ◌∷◌, All, All-zip, All-intro, ◌==◌,
}
use go_microservices_chat.Go.Int.{ℤ}
use go_microservices_chat.Go.Sort.{Pairwise}
use go_microservices_chat.Chat.UserClient.{Client}
use go_microservices_chat.Message.Cursor.{Codec}
use go_microservices_chat.Message.Grpc.Authorisation.{Stores}
use go_microservices_chat.Message.Service.Pages.{RoundTrips, walk, walk_complete}
use go_microservices_chat.Message.Inmem.History.{history, Descends}
use mathlib.Core.List.{Perm}
use go_microservices_chat.Message.Types.{Message}
use go_microservices_chat.Chat.Server.Calls.{Rpc, after, serve, ServerValid, Usable, Unused, Apart}
use go_microservices_chat.Chat.Server.Invariant.{
  empty_stores, empty_stores-ServerValid, after-ServerValid, after-Unused,
}

module _ (lower : Char → Char) (users : Client) (codec : Codec) where
  -- From valid stores, any sequence of calls, successful or not, leaves valid stores: what holds of the
  -- rooms still holds, the messages have different ids and times that an `int64` holds, and each is in
  -- a room that exists, with a sender and a content. The hypotheses are on what the calls draw: UUIDs
  -- that are new, and clock readings of the years 1678 to 2262.
  pub serve-ServerValid :
      (s : Stores) (calls : List Rpc)
      → ServerValid s
      → All Usable calls
      → Pairwise Apart calls
      → All (λ call. All (Unused call) s.1.messages) calls
      → ServerValid (serve lower users codec s calls)
  unfolding serve
  serve-ServerValid s [] v u apart n = v
  serve-ServerValid s (call ∷ calls) v u apart n =
      serve-ServerValid (after lower users codec s call) calls
        (after-ServerValid lower users codec s call v u.0 n.0) u.1 apart.1
        (All-zip (after-Unused lower users codec s call) calls apart.0 n.1)

  -- Whatever calls a chat service has served since it started empty, a client that asks for the
  -- messages of a room page after page gets every message of the room exactly once, newest first. The
  -- hypotheses: the UUIDs drawn for messages are different and not empty, the clock readings are of
  -- the years 1678 to 2262, the texts of the cursors can be read back, and the room id is not empty.
  pub serve-walk :
      (calls : List Rpc)
      → All Usable calls
      → Pairwise Apart calls
      → let r = (serve lower users codec empty_stores calls).1 in
        (room_id : String) (limit : ℤ) (fuel : ℕ)
        → room_id ≢ ""
        → All (RoundTrips codec) r.messages
        → length (history room_id r) < fuel
        → (l : List Message) × (walk codec room_id limit r fuel "" ≡ some l)
          × Descends l
          × Perm l (keep (λ m. m.room_id == room_id) r.messages)
  serve-walk calls u apart room_id limit fuel named trips enough =
      let v =
        serve-ServerValid empty_stores calls empty_stores-ServerValid u apart
          (All-intro (λ call. tt) calls) in
      walk_complete codec room_id limit (serve lower users codec empty_stores calls).1 v.messages
        trips named fuel enough
