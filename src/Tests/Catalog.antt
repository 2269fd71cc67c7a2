-- ===== src/Tests/Catalog.antt =====
-- A catalog with one published peer, exported by its device and read by another one.
use harness_talk.Prelude.{
  ℕ, String, String_eq, Bool, true, ◌≡◌, refl, Option, none, some, List, [], ◌∷◌,
}
use harness_talk.Prelude.Text.{
  byte_len, utf8_width, is_lowercase, is_digit, remove, remove_from, starts_with, trim, trim_start,
}
use harness_talk.Error.{Result, ok}
use harness_talk.Model.{Peer}
use harness_talk.Db.{joined, find_peer, find_retired, peer_on}
use harness_talk.Tests.Tables.{row_in, two_peers}
use harness_talk.Validate
use harness_talk.Validate.{peer_name, bad_name, name_start, name_char}
use harness_talk.Catalog.{uuid, text, is_control}
use harness_talk.Catalog.Mailbox.{peers, peers_on}
use harness_talk.Catalog.Profile.{
  DbStamp, Catalog, Directory, load, current, directory, check_published, check_all_published,
  same_stamp, same_peer, directory_of,
}
use harness_talk.Catalog.Trust.{TrustedDevice, accept}
use harness_talk.Catalog.Accepted.{accept-directory}

abbrev pub one_id : String
one_id = "0d5f4c1e-0000-4000-8000-000000000001"

abbrev pub parse_str : List ℕ → Option String
parse_str s = some one_id

abbrev pub is_absolute : String → Bool
is_absolute path = true

abbrev pub file_stamp : DbStamp
file_stamp = record { device = 1; inode = 2 }

abbrev pub stamp : String → Result DbStamp
stamp path = ok file_stamp

abbrev pub alice : Peer
alice = joined two_peers (row_in "alice" "s1")

abbrev pub bob : Peer
bob = joined two_peers (row_in "bob" "s2")

abbrev pub catalog : Catalog
catalog = record {
  schema_version = 1;
  device_id = one_id;
  device_name = "desk";
  ssh_port = 22;
  mailbox_id = one_id;
  generation = one_id;
  database = "/work/mail.db";
  database_stamp = file_stamp;
  sender = alice;
  profiles =
      record {
        profile_id = one_id;
        display_name = "Bob";
        role = "builder";
        binding_id = one_id;
        peer = bob;
      }
      ∷ [];
}

abbrev pub exported_directory : Directory
exported_directory = directory_of catalog (bob ∷ [])

catalog_exported :
    directory parse_str is_absolute stamp (ok two_peers) catalog ≡ ok exported_directory
unfolding directory load uuid Validate.uuid remove remove_from starts_with trim trim_start text
    is_control byte_len utf8_width same_stamp peer_name bad_name name_start name_char is_lowercase
    is_digit check_all_published check_published current peers peers_on peer_on find_peer joined
    find_retired same_peer
catalog_exported = refl

abbrev pub device : TrustedDevice
device = record {
  device_id = one_id;
  mailbox_id = one_id;
  generation = one_id;
  sender = "alice";
  ssh_user = "agent";
  ssh_port = 22;
  identity_file = "/home/agent/id";
  known_hosts_file = "/home/agent/known_hosts";
  tailscale_peer_id = none;
  ssh_address = none;
}

codex_is_name : peer_name "codex" ≡ ok tt
unfolding peer_name bad_name name_start name_char byte_len utf8_width is_lowercase is_digit
codex_is_name = refl

accept-directory_example : accept parse_str device exported_directory ≡ ok tt
accept-directory_example =
    accept-directory parse_str is_absolute stamp device (ok two_peers) catalog exported_directory
      catalog_exported
      (record { device = refl; mailbox = refl; generation = refl; sender = unfold joined in refl })
      (unfold joined in codex_is_name, tt)
