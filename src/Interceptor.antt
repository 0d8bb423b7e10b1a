-- ===== src/Interceptor.antt =====
-- pkg/interceptor/logging.go. What is logged comes back beside the answer of the handler; the duration
-- is the time between two readings of the clock, which are parameters, as are the new UUID and
-- the text of a gRPC error.
use go_microservices_chat.Prelude.{
  String, ◌-◌, ◌≡◌, ◌≢◌, refl, Option, none, some, List, [], ◌∷◌, ◌==◌, eq_iff, arith,
  if◌then◌else◌, inl, inr, ◌⊎◌, Option-cases,
}
use go_microservices_chat.Go.Exec.{Result, ok, err, panic, Exec}
use go_microservices_chat.Go.Status.{Code, Status}
use go_microservices_chat.Go.Time.{Time}
use go_microservices_chat.Auth.Context.{Context}

abbrev pub request_id_header : String
request_id_header = "x-request-id"

-- what one call gets from outside
pub record Call : Type 0 where
  pub start : Time
  pub finish : Time
  pub uuid : String

pub data Level : Type 0 where
  level_info level_error : Level

-- `code` is `none` for "OK"
pub record Entry : Type 0 where
  pub level : Level
  pub message : String
  pub method : String
  pub request_id : String
  pub duration : Time
  pub code : Option Code
  pub error : Option String

abbrev pub first_or : String → List String → String
first_or uuid [] = uuid
first_or uuid (v ∷ vals) = if v == "" then uuid else v

unfoldable pub extract_or_new_request_id : Call → Context → String
extract_or_new_request_id k ctx = elim ctx.incoming [
  | none ↦ k.uuid
  | some get ↦ first_or k.uuid (get request_id_header)
]

abbrev pub entry :
    {A : Type 0} → (Status → String) → Call → String → String → Result Status A → Option Entry
entry error_text k method id (ok resp) = some (record {
  level = level_info;
  message = "rpc finished";
  method = method;
  request_id = id;
  duration = k.finish - k.start;
  code = none;
  error = none;
})
entry error_text k method id (err e) = some (record {
  level = level_error;
  message = "rpc failed";
  method = method;
  request_id = id;
  duration = k.finish - k.start;
  code = some e.code;
  error = some (error_text e);
})
entry error_text k method id panic = none

-- a handler is given the context and the request id that is stored in it, which `RequestID` reads
unfoldable pub logging :
    {S A : Type 0}
    → (Status → String)
    → Call
    → Context
    → String
    → (Context → String → Exec S Status A)
    → S
    → (Result Status A × S) × Option Entry
unfolding extract_or_new_request_id
logging error_text k ctx method handler s =
    let id = extract_or_new_request_id k ctx in
    let (r, s') = handler ctx id s in ((r, s'), entry error_text k method id r)

first_or_filled : (uuid : String) (vals : List String) → uuid ≢ "" → first_or uuid vals ≢ ""
first_or_filled uuid [] filled e = filled e
first_or_filled uuid (v ∷ vals) filled e = ground (arith, eq_iff v "")

request_id_filled : (k : Call) (ctx : Context) → k.uuid ≢ "" → extract_or_new_request_id k ctx ≢ ""
unfolding extract_or_new_request_id
request_id_filled k ctx filled = elim (Option-cases ctx.incoming) [
  | inl e ↦ rw e filled
  | inr (get, e) ↦ rw e (first_or_filled k.uuid (get request_id_header) filled)
]

-- no entry, or one with this request id
abbrev pub LoggedAs : String → Option Entry → Type 0
LoggedAs id logged = (logged ≡ none) ⊎ ((e : Entry) × (logged ≡ some e) × (e.request_id ≡ id))

entry-LoggedAs :
    {A : Type 0} (error_text : Status → String) (k : Call) (method id : String)
    (r : Result Status A)
    → LoggedAs id (entry error_text k method id r)
entry-LoggedAs error_text k method id (ok resp) = inr (_, refl, refl)
entry-LoggedAs error_text k method id (err e) = inr (_, refl, refl)
entry-LoggedAs error_text k method id panic = inl refl

-- The interceptor answers what the handler answers and leaves the state that it leaves, whether that is
-- a result, an error or a panic. The handler runs with a request id that is not empty, and what is
-- logged carries the same one. New UUIDs are not empty.
pub logging_lem :
    {S A : Type 0} (error_text : Status → String) (k : Call) (ctx : Context) (method : String)
    (handler : Context → String → Exec S Status A) (s : S)
    → k.uuid ≢ ""
    → (id : String) × (id ≢ "")
      × ((logging error_text k ctx method handler s).0 ≡ handler ctx id s)
      × LoggedAs id (logging error_text k ctx method handler s).1
unfolding logging
logging_lem error_text k ctx method handler s filled =
    let id = extract_or_new_request_id k ctx in
    (
      id,
      request_id_filled k ctx filled,
      refl,
      entry-LoggedAs error_text k method id (handler ctx id s).0,
    )
