-- ===== src/Message/Cursor.antt =====
-- Cursors: the end of services/chat-service/internal/message/service.go. The encoders of
-- encoding/json are parameters.
use go_microservices_chat.Prelude.{
  ℕ, String, Bool, ◌&&◌, Option, none, some, List, [], ◌==◌, eqb, if◌then◌else◌,
}
use go_microservices_chat.Go.Base64.{encode_to_string, decode_string}
use go_microservices_chat.Go.Errors.{wrap}
use go_microservices_chat.Go.Exec.{Result, ok, err, panic}
use go_microservices_chat.Go.Time.{Time, zero_time}
use go_microservices_chat.Chat.Errors.{ChatError, message_error, invalid_cursor}

pub record Cursor : Type 0 where
  pub created_at : Time
  pub id : String

abbrev pub zero_cursor : Cursor
zero_cursor = record { created_at = zero_time; id = "" }

unfoldable pub is_zero : Cursor → Bool
is_zero c = c.id == "" && eqb c.created_at zero_time

pub record WireCursor : Type 0 where
  pub c : Time
  pub i : String

-- `json.Marshal` and `json.Unmarshal` of a `wireCursor`, with `none` for an error of the first. An
-- error of the second is its text.
pub record Codec : Type 0 where
  pub marshal : WireCursor → Option (List ℕ)
  pub unmarshal : List ℕ → Result String WireCursor

-- `fmt.Errorf("%w: %v", ErrInvalidCursor, err)`
abbrev invalid : String → ChatError
invalid why = wrap "" (message_error invalid_cursor) why

abbrev prefixed : String → String
prefixed = Prim.Native.String.◌++◌ ": "

-- `b, _ := json.Marshal(...)`: an error leaves `b` nil
abbrev or_nil : Option (List ℕ) → List ℕ
or_nil none = []
or_nil (some b) = b

module _ (codec : Codec) where
  unfoldable pub encode_cursor : Cursor → String
  unfolding is_zero
  encode_cursor c =
      if is_zero c
      then ""
      else encode_to_string (or_nil (codec.marshal (record { c = c.created_at; i = c.id })))

  abbrev checked : WireCursor → Result ChatError Cursor
  checked w =
      if w.i == "" then err (invalid ": empty id") else ok (record { created_at = w.c; id = w.i })

  abbrev of_wire : Result String WireCursor → Result ChatError Cursor
  of_wire (ok w) = checked w
  of_wire (err e) = err (invalid (prefixed e))
  of_wire panic = panic

  abbrev of_raw : Result String (List ℕ) → Result ChatError Cursor
  of_raw (ok raw) = of_wire (codec.unmarshal raw)
  of_raw (err e) = err (invalid (prefixed e))
  of_raw panic = panic

  unfoldable pub decode_cursor : String → Result ChatError Cursor
  decode_cursor s = if s == "" then ok zero_cursor else of_raw (decode_string s)
