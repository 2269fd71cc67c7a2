-- ===== src/Notice.antt =====
-- src/notify.rs: a notice goes to the adapter of the peer's harness.
--
-- The adapters are a parameter, and so is `notification`, the text of a notice, which quotes the
-- path of the database for a shell.
pub mod Reach
use harness_talk.Prelude.{
  String, String_eq, Bool, true, false, not, ◌||◌, Option, none, some, ◌==◌, if◌then◌else◌,
}
use harness_talk.Error.{Error, Result, ok, err, code, fixed_code, map_err, ◌>>=◌, ◌>>◌}
use harness_talk.Model.{
  Peer, Delivery, native, pull, is_native, NativePeer, Message, not_submitted, Outcome, Cleanup,
  cleanup_detail, skipped, unsupported,
}
use harness_talk.Db.{Db, is_some, ok_or}
use harness_talk.Store.{Client, skip_reason_readonly}
use harness_talk.Harness.{Harness, from_str, as_str, Address, Adapter, Skip}
use harness_talk.Validate.{peer_name}

-- `native_address`, with the harness for its adapter.
unfoldable pub native_address : Peer → Result (Harness × NativePeer)
native_address peer = if not (is_native peer.delivery) then err (code "pull_only") else do
  harness ← map_err (λ _. code "adapter_unavailable") (from_str peer.harness)
  session_id ← ok_or peer.session_id "invalid_native_address"
  workspace ← ok_or peer.workspace "invalid_native_address"
  ok (
    harness,
    record {
      name = peer.name;
      session_id = session_id;
      workspace = workspace;
      socket = peer.socket;
      url = peer.url;
      retired_at = peer.retired_at;
    },
  )

-- The check that an adapter repeats before it writes, on a connection of its own: `reopened` is the
-- mailbox as that connection finds it.
abbrev skip_of : Client (Result Db) → Peer → Message → Skip
skip_of reopened peer message w =
    let (opened, w') = reopened w in (skip_reason_readonly opened message.row.id peer.name, w')

module _ (adapter : Harness → Adapter) (notification : Peer → Message → String)
    (reopened : Client (Result Db)) where
  abbrev notify_at : Peer → Message → Result (Harness × NativePeer) → Client Outcome
  notify_at peer message (ok (harness, address)) w =
      (adapter harness).notify address message (notification peer message)
        (skip_of reopened peer message) w
  notify_at peer message (err e) w =
      (record { submission = not_submitted; detail = fixed_code e }, w)

  -- `notify::notify`
  unfoldable pub notify : Peer → Message → Client Outcome
  unfolding native_address
  notify peer message = notify_at peer message (native_address peer)

module _ (adapter : Harness → Adapter) where
  abbrev dismiss_at : Peer → Message → Result (Harness × NativePeer) → Client Cleanup
  dismiss_at peer message (err e) w = (cleanup_detail unsupported (fixed_code e), w)
  dismiss_at peer message (ok (harness, address)) w =
      if not (is_some message.row.ack_at) || not (address.name == message.row.recipient)
      then (cleanup_detail skipped "message_not_acknowledged_by_recipient", w)
      else (adapter harness).dismiss address message w

  -- `notify::dismiss`
  unfoldable pub dismiss : Peer → Message → Client Cleanup
  unfolding native_address is_native cleanup_detail
  dismiss peer message w =
      if not (is_native peer.delivery)
      then (cleanup_detail skipped "pull_only", w)
      else dismiss_at peer message (native_address peer) w

  -- `native_peer`: a native address is checked when it is registered.
  unfoldable pub native_peer :
      String → Harness → String → String → Option String → Option String → Result Peer
  native_peer name harness session workspace socket url = do
    peer_name name
    address ← (adapter harness).address session workspace socket url
    ok (record {
      name = name;
      harness = as_str harness;
      session_id = some address.session_id;
      workspace = some address.workspace;
      socket = address.socket;
      url = address.url;
      retired_at = none;
      delivery = native;
    })
