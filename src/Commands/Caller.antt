-- ===== src/Commands/Caller.antt =====
-- `Context::session` of src/cli.rs: who is calling.
pub mod Settled
use harness_talk.Prelude.{
  ◌≡◌, ◌≢◌, refl, sym, ap, ◌∙◌, ◌⊎◌, inl, inr, String, String_eq, Option_eq, Bool, true, false, not,
  ◌&&◌, Option, none, some, ◌==◌, arith, eq_iff, option_eq_iff, PartialEq, if◌then◌else◌,
}
use harness_talk.Prelude.Find.{find?-fits}
use harness_talk.Error.{Result, Checked, ok, err, code, ◌>>=◌, ◌>>◌, refuse_if}
use harness_talk.Error.Steps.{both, ok_step, ok_same}
use harness_talk.Model.{Peer, is_native}
use harness_talk.Identity.{NativeSession, recognized, unrecognized}
use harness_talk.Db.{Db, peer_on, joined, column_eq, ok_or}
use harness_talk.Store.Peers.{session_peer_on}

-- `--as`, HTALK_PEER and CODEX_THREAD_ID, and the session that runs the command.
pub record Caller : Type 0 where
  pub actor : Option String
  pub htalk_peer : Option String
  pub codex_thread : Option String
  pub native : NativeSession

pub data Source : Type 0 where
  option htalk_peer native_session : Source

pub record Chosen : Type 0 where
  pub actor : String
  pub own : Peer
  pub source : Source

abbrev pub nonempty : Option String → Option String
nonempty none = none
nonempty (some s) = if s == "" then none else some s

unfoldable pub by_name : String → Source → Db → Result Chosen
by_name actor source db = do
  own ← peer_on actor db
  ok (record { actor = actor; own = own; source = source })

abbrev pub recognized_peer : NativeSession → Db → Option Peer
recognized_peer (recognized session workspace) db = session_peer_on "claude" session db
recognized_peer (unrecognized reason) db = none

unfoldable pub by_session : NativeSession → Db → Result Chosen
by_session native db = do
  own ← ok_or (recognized_peer native db) "peer_required_use_as_or_HTALK_PEER"
  ok (record { actor = own.name; own = own; source = native_session })

unfoldable pub choose_from : Option String → Option String → NativeSession → Db → Result Chosen
unfolding by_name by_session
choose_from (some actor) other native db = by_name actor option db
choose_from none (some actor) native db = by_name actor htalk_peer db
choose_from none none native db = by_session native db

abbrev pub other_thread : Option String → Peer → Bool
other_thread none own = false
other_thread (some id) own =
    is_native own.delivery && own.harness == "codex" && not (own.session_id == some id)

abbrev pub other_session : NativeSession → Peer → Bool
other_session (unrecognized reason) own = false
other_session (recognized session workspace) own = not (some session == own.session_id)

abbrev pub by_native : Source → Bool
by_native native_session = true
by_native _ = false

-- Whether a name that was given is of another Claude session.
abbrev pub conflicts : Caller → Chosen → Bool
conflicts caller c =
    not (by_native c.source)
    && is_native c.own.delivery
    && c.own.harness == "claude"
    && other_session caller.native c.own

-- `Context::session`, with the mailbox as it is read.
unfoldable pub session : Caller → Db → Result Chosen
unfolding choose_from
session caller db = do
  c ← choose_from (nonempty caller.actor) (nonempty caller.htalk_peer) caller.native db
  refuse_if (other_thread (nonempty caller.codex_thread) c.own)
      "actor_conflicts_with_CODEX_THREAD_ID"
  refuse_if (conflicts caller c) "actor_conflicts_with_CLAUDE_CODE_SESSION_ID"
  ok c
