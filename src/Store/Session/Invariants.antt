-- ===== src/Store/Session/Invariants.antt =====
-- The commands of a process beside others, and the invariants of the tables and of the calls.
use harness_talk.Prelude.{ℕ, String, false, Option, some, List, [], ◌∷◌}
use harness_talk.Model.{Peer, Message, Outcome, Cleanup}
use harness_talk.Db.History.{Extends}
use harness_talk.Db.Valid.{IsValid}
use harness_talk.Proc.{World}
use harness_talk.Proc.Leads.{Leads-Extends, Leads-IsValid}
use harness_talk.Proc.Runs.{Moves, Moves-refl, Moves-trans}
use harness_talk.Store.{Client}
use harness_talk.Store.Steps.{IsClient, load-Follows}
use harness_talk.Store.Moves.{
  register-Follows, retire-Follows, restore-Follows, save-Follows, notify_once-Follows, ack-Follows,
  wait-Follows, inbox-Follows, sent-Follows,
}
use harness_talk.Store.Notify.Once.{CalledOnce, quiet-CalledOnce, notify_once-CalledOnce}
use harness_talk.Store.Session.{
  Command, add_peer, retire_peer, restore_peer, send, notify_of, show, acknowledge, wait_for,
  list_inbox, list_sent, run, run_all,
}

module _ (parse_str : List ℕ → Option String) (notify : Peer → Message → Client Outcome)
    (dismiss : Peer → Message → Client Cleanup) (client : IsClient notify)
    (cleaner : IsClient dismiss) where
  run-CalledOnce :
      (c : Command) (w : World)
      → IsValid w.mailbox
      → CalledOnce w
      → CalledOnce (run parse_str notify dismiss c w)
  unfolding run
  run-CalledOnce (add_peer p) w v = quiet-CalledOnce ((register-Follows p).at w) v
  run-CalledOnce (retire_peer n) w v = quiet-CalledOnce ((retire-Follows n).at w) v
  run-CalledOnce (restore_peer n) w v = quiet-CalledOnce ((restore-Follows n).at w) v
  run-CalledOnce (send s r b i q) w v = quiet-CalledOnce ((save-Follows parse_str s r b i q).at w) v
  run-CalledOnce (notify_of id) w v = notify_once-CalledOnce notify dismiss client cleaner id w v
  run-CalledOnce (show id a) w v = quiet-CalledOnce ((load-Follows id (some a)).at w) v
  run-CalledOnce (acknowledge id a) w v =
      quiet-CalledOnce ((ack-Follows dismiss cleaner id a).at w) v
  run-CalledOnce (wait_for id a s) w v = quiet-CalledOnce ((wait-Follows id a s).at w) v
  run-CalledOnce (list_inbox a l c) w v = quiet-CalledOnce ((inbox-Follows a l c).at w) v
  run-CalledOnce (list_sent a l c) w v = quiet-CalledOnce ((sent-Follows a l c).at w) v

  run-Moves : (c : Command) (w : World) → Moves false w (run parse_str notify dismiss c w)
  unfolding run
  run-Moves (add_peer p) = (register-Follows p).at
  run-Moves (retire_peer n) = (retire-Follows n).at
  run-Moves (restore_peer n) = (restore-Follows n).at
  run-Moves (send s r b i q) = (save-Follows parse_str s r b i q).at
  run-Moves (notify_of id) = (notify_once-Follows notify dismiss client cleaner id).at
  run-Moves (show id a) = (load-Follows id (some a)).at
  run-Moves (acknowledge id a) = (ack-Follows dismiss cleaner id a).at
  run-Moves (wait_for id a s) = (wait-Follows id a s).at
  run-Moves (list_inbox a l c) = (inbox-Follows a l c).at
  run-Moves (list_sent a l c) = (sent-Follows a l c).at

  run_all-Moves :
      (cs : List Command) (w : World) → Moves false w (run_all parse_str notify dismiss cs w)
  unfolding run_all
  run_all-Moves [] w = Moves-refl w
  run_all-Moves (c ∷ cs) w =
      Moves-trans (run-Moves c w) (run_all-Moves cs (run parse_str notify dismiss c w))

  -- After any commands, in any interleaving with other processes and with any failing statements,
  -- tables that were valid are valid: seq ascends, no two messages share an ID, no request has two
  -- answers, every sender and recipient is a peer, and a reply whose request is named by a nonempty
  -- ID goes between the two peers of that request, the other way round.
  pub run_all-IsValid :
      (cs : List Command) (w : World)
      → IsValid w.mailbox
      → IsValid (run_all parse_str notify dismiss cs w).mailbox
  run_all-IsValid cs w v = Leads-IsValid (run_all-Moves cs w).leads v

  -- After any commands, in any interleaving with other processes and with any failing statements,
  -- every peer and message that was there is there, with the same text and addresses, and the time
  -- of an acknowledgment, of a claimed notification or of a returned answer stays as it was set.
  pub run_all-Extends :
      (cs : List Command) (w : World)
      → Extends w.mailbox (run_all parse_str notify dismiss cs w).mailbox
  run_all-Extends cs w = Leads-Extends (run_all-Moves cs w).leads

  -- After any commands, in any interleaving with other processes and with any failing statements,
  -- from valid tables and from calls that the claims cover: the calls of the notifier for a
  -- message, by this process and by every other one that has won a claim of it, are together at
  -- most as many as the times its notification is claimed, which is never or once.
  pub run_all-CalledOnce :
      (cs : List Command) (w : World)
      → IsValid w.mailbox
      → CalledOnce w
      → CalledOnce (run_all parse_str notify dismiss cs w)
  unfolding run_all
  run_all-CalledOnce [] w v h = h
  run_all-CalledOnce (c ∷ cs) w v h =
      run_all-CalledOnce cs (run parse_str notify dismiss c w)
        (Leads-IsValid (run-Moves c w).leads v) (run-CalledOnce c w v h)
