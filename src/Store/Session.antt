-- ===== src/Store/Session.antt =====
-- The commands of a process, one after another, as src/store.rs carries them out. A command that
-- fails ends alone, and leaves what it wrote.
pub mod Invariants
use harness_talk.Prelude.{ℕ, String, Bool, Option, some, List, [], ◌∷◌, ℤ}
use harness_talk.Model.{Peer, Message, Outcome, Cleanup}
use harness_talk.Validate.{Seconds}
use harness_talk.Proc.{World, Proc}
use harness_talk.Store.{load, Client}
use harness_talk.Store.Peers.{register, retire, restore}
use harness_talk.Store.Messages.{save, ack}
use harness_talk.Store.Notify.{notify_once}
use harness_talk.Store.Wait.{wait}
use harness_talk.Store.Listing.{inbox, sent}

pub data Command : Type 0 where
  add_peer : Peer → Command
  retire_peer restore_peer : String → Command
  send : String → String → String → Option String → Option String → Command
  notify_of : String → Command
  show : String → String → Command
  acknowledge : String → String → Command
  wait_for : String → String → Seconds → Command
  list_inbox list_sent : String → ℤ → Option ℤ → Command

abbrev after : {A : Type 0} → Proc A → World → World
after m w = (m w).1

module _ (parse_str : List ℕ → Option String) (notify : Peer → Message → Client Outcome)
    (dismiss : Peer → Message → Client Cleanup) where
  unfoldable pub run : Command → World → World
  run (add_peer p) = after (register p)
  run (retire_peer name) = after (retire name)
  run (restore_peer name) = after (restore name)
  run (send sender recipient body id reply) = after (save parse_str sender recipient body id reply)
  run (notify_of id) = after (notify_once id notify dismiss)
  run (show id actor) = after (load id (some actor))
  run (acknowledge id actor) = after (ack id actor dismiss)
  run (wait_for id actor seconds) = after (wait id actor seconds)
  run (list_inbox actor limit cursor) = after (inbox actor limit cursor)
  run (list_sent actor limit cursor) = after (sent actor limit cursor)

  unfoldable pub run_all : List Command → World → World
  run_all [] w = w
  run_all (c ∷ cs) w = run_all cs (run c w)
