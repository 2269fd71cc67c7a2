-- ===== src/Tests/Upgrade.antt =====
-- The upgrade of a mailbox of version 2.
use harness_talk.Prelude.{String, String_eq, true, false, ◌≡◌, ◌⊎◌, refl, List, [], ◌∷◌, ℤ, pos}
use harness_talk.Error.{Checked, ok}
use harness_talk.Model.{is_native}
use harness_talk.Db.{find_peer}
use harness_talk.Db.Peers.{insert_peer, has_session, fits_delivery}
use harness_talk.Schema.{
  File, Object, same_codes, same_word, has_column, has_table, legacy_table, legacy_structure,
  check_version, rebuild, with_column, with_table, replace_peers, upgrade, finish_change, change,
  ensure,
}
use harness_talk.Schema.Upgrade.{with_native, ensure_ends}
use harness_talk.Tests.Tables.{two_peers}

abbrev object : String → List String → Object
object name columns = record { name = name; is_table = true; columns = columns }

abbrev old_file : File
old_file = record {
  version = pos 2;
  objects =
      object "peers" ("name" ∷ "harness" ∷ "session_id" ∷ "workspace" ∷ "socket" ∷ [])
      ∷ object "messages" (
          "seq" ∷ "id" ∷ "sender" ∷ "recipient" ∷ "in_reply_to" ∷ "body" ∷ "created_at" ∷ "ack_at"
          ∷ "submission" ∷ "notification_started_at" ∷ "notification_finished_at"
          ∷ "notification_detail" ∷ [])
      ∷ [];
  references_hold = true;
  is_whole = true;
  rows = two_peers;
}

abbrev backup : ℤ → Checked
backup v = ok tt

abbrev upgraded : File
upgraded = record {
  version = pos 3;
  objects =
      object "peers"
        ("name" ∷ "harness" ∷ "session_id" ∷ "workspace" ∷ "socket" ∷ "url" ∷ "delivery" ∷ [])
      ∷ object "messages" (
          "seq" ∷ "id" ∷ "sender" ∷ "recipient" ∷ "in_reply_to" ∷ "body" ∷ "created_at" ∷ "ack_at"
          ∷ "submission" ∷ "notification_started_at" ∷ "notification_finished_at"
          ∷ "notification_detail" ∷ "wait_returned_at" ∷ [])
      ∷ object "waits" ("token" ∷ "message_id" ∷ "actor" ∷ "until" ∷ [])
      ∷ object "retired_peers" ("name" ∷ "retired_at" ∷ [])
      ∷ [];
  references_hold = true;
  is_whole = true;
  rows = two_peers;
}

old_upgraded : ensure backup false old_file ≡ ok upgraded
unfolding ensure change check_version upgrade legacy_structure legacy_table same_word same_codes
    rebuild insert_peer find_peer has_session fits_delivery is_native with_column has_column
    replace_peers finish_change with_table has_table
old_upgraded = refl

ensure_ends_example :
    (upgraded.version ≡ pos 3)
    × ((upgraded.rows ≡ two_peers) ⊎ (upgraded.rows ≡ with_native two_peers))
ensure_ends_example = ensure_ends backup false old_file upgraded old_upgraded
