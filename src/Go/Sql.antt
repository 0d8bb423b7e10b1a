-- ===== src/Go/Sql.antt =====
-- What the Postgres repositories use of github.com/jackc/pgx. The pool is a parameter: its methods take
-- the text of a statement and its arguments, and read and write the database `S`. `query` covers the
-- loop over `rows.Next` and `rows.Err`.
use go_microservices_chat.Prelude.{ℕ, String, Bool, List, [], ◌∷◌, ◌==◌, eqb, if◌then◌else◌}
use go_microservices_chat.Go.Errors.{GoError, sentinel, foreign}
use go_microservices_chat.Go.Exec.{Result, ok, err, panic, Exec, pure, raise}
use go_microservices_chat.Go.Int.{ℤ}
use go_microservices_chat.Go.Time.{Time}

pub data Value : Type 0 where
  null : Value
  text : String → Value
  texts : List String → Value
  time : Time → Value
  int : ℤ → Value
  bool : Bool → Value

abbrev pub Row : Type 0
Row = List Value

-- a `pgconn.PgError` with its SQLSTATE, `pgx.ErrNoRows`, and every other error; each with its text
pub data SqlError : Type 0 where
  coded : String → String → SqlError
  no_rows : String → SqlError
  other : String → SqlError

pub record Pool (S : Type 0) : Type 0 where
  -- the number of rows affected
  pub exec : String → List Value → Exec S SqlError ℕ
  pub query : String → List Value → Exec S SqlError (List Row)
  pub query_row : String → List Value → Exec S SqlError Row

abbrev pub unique_violation : String
unique_violation = "23505"

-- `nullString`
unfoldable pub null_string : String → Value
null_string s = if s == "" then null else text s

-- `rows.Scan` into variables of other types than those of the columns
abbrev pub cannot_scan : {A : Type 0} → Result SqlError A
cannot_scan = err (other "cannot scan")

module _ {A : Type 0} where
  abbrev and_then : Result SqlError A → Result SqlError (List A) → Result SqlError (List A)
  and_then (ok a) (ok l) = ok (a ∷ l)
  and_then (ok a) (err e) = err e
  and_then (ok a) panic = panic
  and_then (err e) l = err e
  and_then panic l = panic

  -- the loop over the rows
  unfoldable pub scan_all : (Row → Result SqlError A) → List Row → Result SqlError (List A)
  scan_all scan [] = ok []
  scan_all scan (r ∷ rs) = and_then (scan r) (scan_all scan rs)

module _ {E : Type 0} where
  -- an error that is returned as it is
  abbrev pub as_is : SqlError → GoError E
  as_is (coded code msg) = foreign msg
  as_is (no_rows msg) = foreign msg
  as_is (other msg) = foreign msg

  -- `errors.As(err, &pgErr) && pgErr.Code == uniqueViolation`
  abbrev pub unique_as : E → SqlError → GoError E
  unique_as e (coded code msg) = if code == unique_violation then sentinel e else foreign msg
  unique_as e (no_rows msg) = foreign msg
  unique_as e (other msg) = foreign msg

  -- `errors.Is(err, pgx.ErrNoRows)`
  abbrev pub no_rows_as : E → SqlError → GoError E
  no_rows_as e (coded code msg) = foreign msg
  no_rows_as e (no_rows msg) = sentinel e
  no_rows_as e (other msg) = foreign msg

  -- `tag.RowsAffected() == 0`
  unfoldable pub affected_or : {S : Type 0} → E → ℕ → Exec S (GoError E) (Unit {0})
  unfolding pure raise
  affected_or e n = if eqb n 0 then raise (sentinel e) else pure tt
