-- ===== src/Message/Postgres/Tests.antt =====
-- The theorems on Postgres over a table that is a list.
use mathlib.Core.Bool.{false≢true}
use go_microservices_chat.Chat.Errors.{ChatError}
use go_microservices_chat.Prelude.{
  ℕ, ◌+◌, ◌≡◌, refl, sym, ap, ◌∙◌, Bool, false, ◌&&◌, List, [], ◌∷◌, ◌++◌, map, arith, ◌==◌, keep,
  take,
}
use go_microservices_chat.Go.Exec.{Result, ok, err, panic}
use go_microservices_chat.Go.Int.{pos}
use go_microservices_chat.Go.Sort.{sort_slice}
use go_microservices_chat.Go.Sql.{Value, text, time, int, Row, SqlError, other, Pool}
use go_microservices_chat.Go.Time.{unix_epoch, InRange}
use go_microservices_chat.Message.Types.{Message}
use go_microservices_chat.Message.Cursor.{Cursor, is_zero, decode_cursor}
use go_microservices_chat.Message.Inmem.{inmem}
use go_microservices_chat.Message.Postgres.{postgres, row_of, scan_message}
use go_microservices_chat.Message.Postgres.Equivalence.{
  MessagesTable, descending, row_less, Whole, get_messages_same,
}
use go_microservices_chat.Message.Service.{Call, get_messages}
use go_microservices_chat.Message.Tests.{hello, one_message, toy}

abbrev added : List Message → Result SqlError Message → Result SqlError ℕ × List Message
added s (ok m) = (ok 1, s ++ m ∷ [])
added s (err e) = (err e, s)
added s panic = (panic, s)

abbrev selected : List Value → List Message → Result SqlError (List Row)
selected (text room_id ∷ int (pos n) ∷ []) s =
    ok (map row_of (take n (sort_slice descending (keep (λ m. m.room_id == room_id) s))))
selected (text room_id ∷ time at ∷ text id ∷ int (pos n) ∷ []) s = ok (
    map row_of (
      take n (
        sort_slice descending
          (keep (λ m. m.room_id == room_id && row_less m.created_at m.id at id) s))))
selected args s = err (other "bad arguments")

abbrev list_pool : Pool (List Message)
list_pool = record {
  exec = λ sql args s. added s (scan_message args);
  query = λ sql args s. (selected args s, s);
  query_row = λ sql args s. (err (other "not used"), s);
}

list_pool-table : MessagesTable list_pool (λ s. s) (λ m s. Unit) (λ id. Unit)
list_pool-table = record {
  inserts = λ m s fits whole. (s ++ m ∷ [], refl, refl);
  newest = λ room_id n s named. refl;
  before = λ room_id at id n s named uuid whole. refl;
}

abbrev call : Call
call = record { now = unix_epoch + 7000; uuid = "m2" }

abbrev starts : Result ChatError Cursor → Bool
starts (ok c) = is_zero c
starts (err e) = false
starts panic = false

start-zero :
    (c : Cursor)
    → decode_cursor toy "" ≡ ok c
    → is_zero c ≡ false
    → InRange c.created_at × Whole c.created_at × Unit {0}
unfolding decode_cursor is_zero
start-zero c e f = absurd (false≢true (sym f ∙ sym (ap starts e)))

get_messages_same_example :
    get_messages (postgres list_pool) toy "r1" (pos 1) "" (hello ∷ [])
    ≡ ((get_messages inmem toy "r1" (pos 1) "" one_message).0, hello ∷ [])
get_messages_same_example =
    get_messages_same list_pool (λ s. s) (λ m s. Unit) (λ id. Unit) list_pool-table (hello ∷ [])
      one_message refl toy "r1" (pos 1) "" tt ((omega arith, omega arith), tt) start-zero
