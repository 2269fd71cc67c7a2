-- ===== src/Codex/Identity.antt =====
-- src/adapters/codex/mod.rs: whether a client still is at a registered address.
--
-- `os::same_workspace`, which resolves a path, is a parameter.
use harness_talk.Prelude.{
  String, String_eq, Bool, false, not, ◌||◌, Option, none, some, ℤ, pos, ◌==◌, nat_eq,
}
use harness_talk.Error.{Result, Checked, ok, err, code, ◌>>=◌, ◌>>◌, refuse_if}
use harness_talk.Model.{NativePeer}
use harness_talk.Db.{ok_or}
use harness_talk.Codex.Json.{
  Json, text, object, boolean, Fields, no_fields, field, get_field, get, as_str,
}
use harness_talk.Codex.Rpc.{Rpc, call}

abbrev fields_of : Option Json → Option Fields
fields_of (some (object fields)) = some fields
fields_of _ = none

abbrev pub is_text : Option String → String → Bool
is_text none s = false
is_text (some t) s = t == s

abbrev status_word : Option Json → Result (Option String)
status_word none = ok none
status_word (some (object status)) = ok (as_str (get_field "type" status))
status_word (some _) = err (code "invalid_client_data")

abbrev loaded : Option String → Bool
loaded none = false
loaded (some s) = s == "idle" || s == "active"

abbrev pub thread_read : NativePeer → Fields
thread_read peer =
    field "threadId" (text peer.session_id) (field "includeTurns" (boolean false) no_fields)

-- What `check_live` asks of the answer to `thread/read`.
unfoldable pub live_thread : (Option Json → String → Bool) → NativePeer → Json → Checked
live_thread same_workspace peer answer = do
  thread ← ok_or (fields_of (get "thread" answer)) "invalid_client_data"
  refuse_if
      (not (is_text (as_str (get_field "id" thread)) peer.session_id)
        || not (same_workspace (get_field "cwd" thread) peer.workspace))
      "recipient_identity_changed"
  status ← status_word (get_field "status" thread)
  refuse_if (not (loaded status)) "recipient_not_loaded"

-- `check_live`
unfoldable pub check_live :
    (ℤ → String) → (Option Json → String → Bool) → NativePeer → Rpc → Checked × Rpc
unfolding live_thread call
check_live show same_workspace peer rpc =
    let r = call show "thread/read" (thread_read peer) rpc in
    ((do answer ← r.0; live_thread same_workspace peer answer), r.1)

-- A row of the client's own table, as `saved_thread_at` reads it.
pub record Thread : Type 0 where
  pub id : String
  pub cwd : Json
  pub archived : ℤ
  pub source : Json

abbrev is_zero : ℤ → Bool
is_zero (pos n) = nat_eq n 0
is_zero _ = false

-- `saved_identity_at`, on what the client's table holds.
unfoldable pub saved_identity :
    (Option Json → String → Bool) → NativePeer → Result (Option Thread) → Checked
saved_identity same_workspace peer read = do
  row ← read
  thread ← ok_or row "recipient_not_in_codex_state"
  refuse_if
      (not (thread.id == peer.session_id) || not (same_workspace (some thread.cwd) peer.workspace))
      "recipient_identity_changed"
  refuse_if (not (is_zero thread.archived) || not (is_text (as_str (some thread.source)) "cli"))
      "recipient_is_not_an_unarchived_codex_cli_session"
