-- ===== src/Store/Notify/Once.antt =====
-- The notifier is called once at most for a message.
use harness_talk.Prelude.{
  ℕ, zero, suc, ◌≤◌, String, String_eq, true, false, ◌≡◌, ◌≢◌, refl, inl, inr, Option, none, some,
  [], ◌∷◌, arith, ◌==◌, eq_iff, count, nat_eq, if◌then◌else◌, Bool-cases,
}
use mathlib.Core.Path.{subst}
use harness_talk.Prelude.Find.{count-append}
use harness_talk.Error.{Result, ok, err, SqliteCode}
use harness_talk.Model.{Peer, Message, Outcome, Cleanup, SkipReason}
use harness_talk.Db.{Db}
use harness_talk.Db.Claim.{started, started-Extends, claim_starts}
use harness_talk.Db.History.{Extends, apply-Extends}
use harness_talk.Db.Valid.{IsValid}
use harness_talk.Db.Valid.Steps.{apply-IsValid}
use harness_talk.Db.Update.{claim}
use harness_talk.Db.Txn.{apply, start_notification}
use harness_talk.Proc.{
  World, write_lem, Proc, run_statement, next_turn, record_call, continue, ◌>>=◌,
}
use harness_talk.Proc.Leads.{Leads, Leads-IsValid}
use harness_talk.Proc.Calls.{Covered, Covered-trans, Covered-weaken}
use harness_talk.Proc.Runs.{Moves, Follows, Moves-next_turn, Follows-record_call}
use harness_talk.Store.{load, Client}
use harness_talk.Store.Notify.{notify_peer, deliver, attempt, notify_once}
use harness_talk.Store.Steps.{IsClient, load-Follows, reads, foreign-Follows}
use harness_talk.Store.Moves.{
  deliver-Follows, skip_after_grace-Follows, dismiss_acknowledged-Follows,
}

-- One call for `id`.
abbrev one : String → String → ℕ
one id j = if id == j then 1 else 0

-- Beside the calls of other processes, at most one call for the message is added.
record Adds {A : Type 0} (id : String) (m : Proc A) : Type 0 where
  at : (w : World) → Covered (one id) w (m w).1

Adds-quiet : {A : Type 0} (id : String) (m : Proc A) → Follows true m → Adds id m
Adds-quiet id m h = record { at = λ w. Covered-weaken ((h.at w).silent refl) (λ j. omega arith) }

module _ {A B : Type 0} (id : String) where
  Adds-before :
      (m : Proc A) (f : A → Proc B) → Follows true m → ((a : A) → Adds id (f a)) → Adds id (m >>= f)
  unfolding ◌>>=◌
  Adds-before m f hm hf = record { at = λ w. let (r, w') = m w in go w r w' (hm.at w) }
    where
      go :
          (w : World) (r : Result A) (w' : World)
          → Moves true w w'
          → Covered (one id) w (continue r f w').1
      go w (ok a) w' h =
          Covered-weaken (Covered-trans h.leads (h.silent refl) ((hf a).at w')) (λ j. omega arith)
      go w (err x) w' h = Covered-weaken (h.silent refl) (λ j. omega arith)

  Adds-after :
      (m : Proc A) (f : A → Proc B)
      → Follows false m
      → Adds id m
      → ((a : A) → Follows true (f a))
      → Adds id (m >>= f)
  unfolding ◌>>=◌
  Adds-after m f hm h hf = record {
    at = λ w. let (r, w') = m w in go w r w' (hm.at w).leads (h.at w);
  }
    where
      go :
          (w : World) (r : Result A) (w' : World)
          → Leads w.mailbox w'.mailbox
          → Covered (one id) w w'
          → Covered (one id) w (continue r f w').1
      go w (ok a) w' l c =
          Covered-weaken (Covered-trans l c (((hf a).at w').silent refl)) (λ j. omega arith)
      go w (err x) w' l c = c

module _ (notify : Peer → Message → Client Outcome) (dismiss : Peer → Message → Client Cleanup)
    (client : IsClient notify) (cleaner : IsClient dismiss) where
  record_call-Adds : (id : String) → Adds id (record_call id)
  unfolding ◌>>=◌
  record_call-Adds id = record {
    at = λ w. record {
      bound = λ valid j. rw (count-append (λ c. c == j) w.calls (id ∷ [])) (ground arith);
    };
  }

  notify_peer-Adds :
      (id : String) (m : Message) (to : Result Peer) → Adds id (notify_peer id notify m to)
  unfolding notify_peer
  notify_peer-Adds id m (ok p) =
      Adds-after id _ _ (Follows-record_call id) (record_call-Adds id)
        (λ _. foreign-Follows notify p m client)
  notify_peer-Adds id m (err e) = Adds-quiet id _ (search reads)

  deliver-Adds :
      (id : String) (m : Message) (r : Option SkipReason) → Adds id (deliver id notify m r)
  unfolding deliver
  deliver-Adds id m (some r) = Adds-quiet id _ (search reads)
  deliver-Adds id m none = Adds-before id _ _ (search reads) (λ to. notify_peer-Adds id m to)

  attempt-Adds : (id : String) → Adds id (attempt id notify dismiss)
  unfolding attempt
  attempt-Adds id = Adds-before id _ _ (search reads) λ message.
      Adds-before id _ _ (search (reads, skip_after_grace-Follows)) λ tried.
        Adds-before id _ _ (search reads) λ reason. Adds-before id _ _ (search reads) λ _.
          Adds-after id _ _ (deliver-Follows notify dismiss client cleaner id message reason)
            (deliver-Adds id message reason)
            λ outcome. search (reads, dismiss_acknowledged-Follows dismiss cleaner) depth 10

-- For each message, the log holds a call at most, and none before its notification was claimed.
abbrev pub CalledOnce : World → Type 0
CalledOnce w = (id : String) → count (λ c. c == id) w.calls ≤ started id w.mailbox

pub quiet-CalledOnce :
    {w w' : World} → Moves true w w' → IsValid w.mailbox → CalledOnce w → CalledOnce w'
quiet-CalledOnce {w} m v h id = omega (arith, h id, (m.silent refl).bound v id)

module _ (notify : Peer → Message → Client Outcome) (dismiss : Peer → Message → Client Cleanup)
    (client : IsClient notify) (cleaner : IsClient dismiss) (id : String) where
  -- After a claim that was won, and was the first, the attempt may add its call.
  attempt-CalledOnce :
      (w : World) (d : Db)
      → IsValid w.mailbox
      → Extends d w.mailbox
      → ((j : String) → count (λ c. c == j) w.calls ≤ started j d)
      → started id d ≡ 0
      → started id w.mailbox ≡ 1
      → CalledOnce (attempt id notify dismiss w).1
  attempt-CalledOnce w d v x h zero' one' j =
      let bound = ((attempt-Adds notify dismiss client cleaner id).at w).bound v j in
      elim (Bool-cases (id == j)) [
        | inl e ↦
            let same : id ≡ j = (eq_iff id j).0 e in
            let none_before : started j d ≡ 0 = subst (λ i. started i d ≡ 0) same zero' in
            let one_now : started j w.mailbox ≡ 1 =
              subst (λ i. started i w.mailbox ≡ 1) same one' in
            let bound = rw e at bound in omega (arith, h j)
        | inr e ↦ let bound = rw e at bound in omega (arith, h j, started-Extends j x)
      ]

  abbrev go_on : ℕ → Proc Message
  go_on claimed = if nat_eq claimed 0 then load id none else attempt id notify dismiss

  after_claim :
      (w : World) (claimed : ℕ) (d : Db)
      → CalledOnce w
      → IsValid d
      → Extends w.mailbox d
      → (claimed ≢ 0 → (started id w.mailbox ≡ 0) × (started id d ≡ 1))
      → CalledOnce (go_on claimed (record w { mailbox = d })).1
  after_claim w zero d h v x won =
      quiet-CalledOnce ((load-Follows id none).at (record w { mailbox = d })) v
        (λ j. omega (arith, h j, started-Extends j x))
  after_claim w (suc n) d h v x won =
      let (unstarted, now_started) = won (λ e. omega arith) in
      let changed : nat_eq (suc n) 0 ≡ false = ground arith in
      rw changed
        (attempt-CalledOnce (record w { mailbox = d }) w.mailbox v x h unstarted now_started)

  claim_statement :
      (fault : Option SqliteCode) (w : World) (time : ℕ)
      → IsValid w.mailbox
      → CalledOnce w
      → let (r, w') = run_statement fault w (λ _. claim id time) in
        CalledOnce (continue r go_on w').1
  unfolding claim apply
  claim_statement (some c) w time v h = h
  claim_statement none w time v h =
      after_claim w _ _ h (apply-IsValid (start_notification id time) w.mailbox v)
        (apply-Extends (start_notification id time) w.mailbox)
        (λ ne. claim_starts id time w.mailbox v (λ e. ne (ok_inj e)))
    where
      ok_inj : {n : ℕ} → ok n ≡ ok 0 → n ≡ 0
      ok_inj e = cc

  -- One run of `notify_once`, in any world: for every message the log of the notifier's calls
  -- still holds one at most, and none whose notification was not claimed.
  pub notify_once-CalledOnce :
      (w : World)
      → IsValid w.mailbox
      → CalledOnce w
      → CalledOnce (notify_once id notify dismiss w).1
  unfolding notify_once ◌>>=◌
  notify_once-CalledOnce w v h =
      let m = Moves-next_turn w in
      rw (write_lem (claim id w.clock) w) (
        claim_statement (w.future w.turn).fault (next_turn w) w.clock (Leads-IsValid m.leads v)
          (quiet-CalledOnce m v h))
