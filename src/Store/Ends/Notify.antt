-- ===== src/Store/Ends/Notify.antt =====
-- `notify_once` of src/store.rs and the fuel of its grace.
use harness_talk.Prelude.{ℕ, String, true, ◌≡◌, ◌≢◌, refl, Option, none, some, arith, nat_eq}
use harness_talk.Error.{Result, ok, err, code, system, io, db, interrupted}
use harness_talk.Model.{Peer, Message, Outcome, Cleanup, SkipReason}
use harness_talk.Db.{Db}
use harness_talk.Db.Update.{claim, finish}
use harness_talk.Proc.{World}
use harness_talk.Proc.Ends.{
  Ends, plain, Ends-write, Ends-pure, Ends-lift, Ends-if, Ends-check_interrupted, Ends-record_call,
  Ends-bind, Ends-now, Ends-try_then,
}
use harness_talk.Store.{Client}
use harness_talk.Store.Steps.{reads, IsClient}
use harness_talk.Store.Moves.{cleanup_by-Follows, skip_after_grace-Follows, deliver-Follows}
use harness_talk.Store.Messages.{cleanup_by, dismiss_since, dismiss_acknowledged}
use harness_talk.Store.Notify.{out_of_fuel, without_db, deliver, notify_peer, attempt, notify_once}
use harness_talk.Store.Ends.{peer-Ends, load-Ends, skip_after_grace-Ends, foreign-Ends, not_plain}

plain-without_db : (r : Result (Option SkipReason)) → plain r ≡ true → plain (without_db r) ≡ true
plain-without_db (ok r) h = h
plain-without_db (err (code c)) h = h
plain-without_db (err (system c)) h = h
plain-without_db (err (io k)) h = h
plain-without_db (err (db c)) h = refl
plain-without_db (err interrupted) h = h

claim-plain : (id : String) (t : ℕ) (d : Db) → plain (claim id t d).0 ≡ true
unfolding claim
claim-plain id t d = refl

finish-plain : (id : String) (o : Outcome) (t : ℕ) (d : Db) → plain (finish id o t d).0 ≡ true
unfolding finish
finish-plain id o t d = refl

module _ (notify : Peer → Message → Client Outcome) (dismiss : Peer → Message → Client Cleanup)
    (client : IsClient notify) (cleaner : IsClient dismiss) where
  notify_peer-Ends :
      {t : ℕ} (id : String) (m : Message) (to : Result Peer) → Ends t (notify_peer id notify m to)
  unfolding notify_peer
  notify_peer-Ends id m (ok p) =
      Ends-bind _ _ (Ends-record_call id) (search reads) λ _. foreign-Ends (notify p m)
  notify_peer-Ends id m (err e) = Ends-pure _

  deliver-Ends :
      {t : ℕ} (id : String) (m : Message) (r : Option SkipReason) → Ends t (deliver id notify m r)
  unfolding deliver
  deliver-Ends id m none =
      Ends-try_then _ _ (peer-Ends _) (search reads) λ to _. notify_peer-Ends id m to
  deliver-Ends id m (some reason) = Ends-pure _

  cleanup_by-Ends : {t : ℕ} (m : Message) (to : Result Peer) → Ends t (cleanup_by dismiss m to)
  unfolding cleanup_by
  cleanup_by-Ends m (ok p) = foreign-Ends (dismiss p m)
  cleanup_by-Ends m (err e) = Ends-pure _

  dismiss_since-Ends : {t : ℕ} (m : Message) (o : Option ℕ) → Ends t (dismiss_since dismiss m o)
  unfolding dismiss_since
  dismiss_since-Ends m none = Ends-pure m
  dismiss_since-Ends m (some acked) = Ends-try_then _ _ (peer-Ends _) (search reads) λ to _.
      Ends-bind _ _ (cleanup_by-Ends m to) (cleanup_by-Follows dismiss cleaner m to)
        λ c. Ends-pure _

  dismiss_acknowledged-Ends : {t : ℕ} (m : Message) → Ends t (dismiss_acknowledged dismiss m)
  unfolding dismiss_acknowledged
  dismiss_acknowledged-Ends m = dismiss_since-Ends m m.row.ack_at

  attempt-Ends : {t : ℕ} (id : String) → Ends t (attempt id notify dismiss)
  unfolding attempt
  attempt-Ends id = Ends-bind _ _ (load-Ends id none) (search reads) λ m.
      Ends-try_then _ _ (skip_after_grace-Ends m) (skip_after_grace-Follows m) λ r h.
        Ends-bind _ _ (Ends-lift _ (plain-without_db r h)) (search reads) λ reason.
          Ends-bind _ _ Ends-check_interrupted (search reads) λ _.
            Ends-bind _ _ (deliver-Ends id m reason)
              (deliver-Follows notify dismiss client cleaner id m reason)
              λ outcome. Ends-bind _ _ Ends-check_interrupted (search reads) λ _. Ends-now _ λ s le.
                Ends-bind _ _ (Ends-write (finish id outcome s) (finish-plain id outcome s))
                  (search reads)
                  λ _.
                    Ends-bind _ _ (load-Ends id none) (search reads)
                      λ current. dismiss_acknowledged-Ends current

  notify_once-Ends : {t : ℕ} (id : String) → Ends t (notify_once id notify dismiss)
  unfolding notify_once
  notify_once-Ends id = Ends-now _ λ s le.
      Ends-bind _ _ (Ends-write (claim id s) (claim-plain id s)) (search reads)
        λ claimed. Ends-if (nat_eq claimed 0) _ _ (λ _. load-Ends id none) λ _. attempt-Ends id

  -- Whatever the world does meanwhile, notify_once never uses up the fuel of the loop in which it
  -- grants a poll its grace, where the notifier and the cleaner move the world as processes do.
  pub notify_once_ends :
      (id : String) (w : World) → (notify_once id notify dismiss w).0 ≢ err out_of_fuel
  notify_once_ends id w e = not_plain e ((notify_once-Ends {t = 0} id).at w (omega arith))
