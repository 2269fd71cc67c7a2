-- ===== src/Codex/Rpc.antt =====
-- src/adapters/codex/rpc.rs: one request and its answer over a connection.
--
-- A script of frames that ends stands for a deadline that has passed.
use harness_talk.Prelude.{
  ℕ, suc, String, String_eq, Bool, true, false, Option, none, some, List, [], ◌∷◌, ◌++◌, ℤ, pos,
  negsuc, nat_eq, if◌then◌else◌,
}
use harness_talk.Error.{Error, Result, Checked, ok, err, code}
use harness_talk.Codex.Json.{Json, boolean, integer, real, object, Fields, get_field, concat}

-- What `recv` answers next: an error, a text that is not JSON, or a value.
pub data Frame : Type 0 where
  broken : Error → Frame
  not_json : Frame
  frame : Json → Frame

pub record Request : Type 0 where
  pub id : ℕ
  pub method : String
  pub params : Fields

-- A connection. `writes` is what the next writes answer, where a write that is not listed passes.
pub record Rpc : Type 0 where
  pub counter : ℕ
  pub closing : Bool
  pub frames : List Frame
  pub writes : List Checked
  pub sent : List Request

abbrev same_integer : ℤ → ℕ → Bool
same_integer (pos n) counter = nat_eq n counter
same_integer (negsuc n) counter = false

-- Python's `frame.get("id") == counter`, where `1.0` and `True` also equal 1.
unfoldable pub same_id : Option Json → ℕ → Bool
same_id (some (integer n)) counter = same_integer n counter
same_id (some (real is)) counter = is (pos counter)
same_id (some (boolean true)) counter = nat_eq counter 1
same_id _ _ = false

abbrev rejected : (ℤ → String) → Option Json → Error
rejected show (some (integer n)) = code (concat "codex_rpc_rejected:" (show n))
rejected show _ = code "codex_rpc_rejected"

abbrev error_code : Json → Option Json
error_code (object fields) = get_field "code" fields
error_code _ = none

abbrev found : Option Json → Result Json
found none = err (code "codex_rpc_invalid_response")
found (some v) = ok v

-- The answer that a frame with the request's ID holds.
unfoldable pub answer_of : (ℤ → String) → Fields → Result Json
answer_of show fields = elim (get_field "error" fields) [
  | some e ↦ err (rejected show (error_code e))
  | none ↦ found (get_field "result" fields)
]

abbrev pub Received : Type 0
Received = Result Json × List Frame

-- The loop of `call_until`: frames of other requests are skipped.
unfoldable pub receive : (ℤ → String) → ℕ → List Frame → Received
unfolding same_id answer_of
receive show counter [] = (err (code "codex_rpc_timeout"), [])
receive show counter (broken e ∷ frames) = (err e, frames)
receive show counter (not_json ∷ frames) = (err (code "codex_rpc_invalid_response"), frames)
receive show counter (frame (object fields) ∷ frames) =
    let skipped = receive show counter frames in
    if same_id (get_field "id" fields) counter then (answer_of show fields, frames) else skipped
receive show counter (frame _ ∷ frames) = (err (code "codex_rpc_invalid_response"), frames)

abbrev pub next_write : List Checked → Checked
next_write [] = ok tt
next_write (w ∷ ws) = w

abbrev later_writes : List Checked → List Checked
later_writes [] = []
later_writes (w ∷ ws) = ws

abbrev pub request_of : String → Fields → Rpc → Request
request_of method params rpc = record { id = suc rpc.counter; method = method; params = params }

-- The connection once a request is written. A write that failed may have been written in part.
abbrev pub written : String → Fields → List Frame → Rpc → Rpc
written method params frames rpc = record {
  counter = suc rpc.counter;
  closing = rpc.closing;
  frames = frames;
  writes = later_writes rpc.writes;
  sent = rpc.sent ++ request_of method params rpc ∷ [];
}

-- The call once the write has answered.
unfoldable pub call_after : (ℤ → String) → String → Fields → Rpc → Checked → Result Json × Rpc
unfolding receive
call_after show method params rpc (err e) = (err e, written method params rpc.frames rpc)
call_after show method params rpc (ok _) =
    let r = receive show (suc rpc.counter) rpc.frames in (r.0, written method params r.1 rpc)

-- `Rpc::call`. `show` prints an integer.
unfoldable pub call : (ℤ → String) → String → Fields → Rpc → Result Json × Rpc
unfolding call_after
call show method params rpc =
    if rpc.closing
    then (err (code "codex_rpc_closed"), rpc)
    else call_after show method params rpc (next_write rpc.writes)
