-- ===== src/Proc/Runs.antt =====
-- What every process does to its world: the mailbox moves by transactions of the list alone, the
-- clock does not go back, and an interrupt stays.
use native.Mathlib.Nat.{le_refl, le_trans}
use harness_talk.Prelude.{
  ℕ, ◌≤◌, ◌≡◌, refl, Bool, true, false, Option, none, some, List, [], ◌∷◌, arith, String,
  if◌then◌else◌,
}
use harness_talk.Error.{Error, Result, ok, err, SqliteCode}
use harness_talk.Db.{Db}
use harness_talk.Proc.Leads.{Leads, here, next, Leads-trans}
use harness_talk.Proc.Calls.{Covered, no_extra, Covered-trans, Covered-uncalled, Covered-other}
use harness_talk.Db.Write.{Write}
use harness_talk.Proc.{
  Event, tick, signal, other, World, Proc, happen, happen_all, next_turn, run_statement, write_at,
  write, read, unchanged, pure, raise, lift, gets, try, now, check_interrupted, sleep, new_id,
  record_call, continue, ◌>>=◌,
}

-- A process that is `quiet` does not call the notifier: the calls are those of other processes.
pub record Moves (quiet : Bool) (w w' : World) : Type 0 where
  pub leads : Leads w.mailbox w'.mailbox
  pub later : w.clock ≤ w'.clock
  pub stopped : w.stop ≡ true → w'.stop ≡ true
  pub silent : quiet ≡ true → Covered no_extra w w'

pub Moves-refl : {q : Bool} (w : World) → Moves q w w
Moves-refl w = record {
  leads = here;
  later = le_refl _;
  stopped = λ h. h;
  silent = λ _. Covered-uncalled w w here refl;
}

pub Moves-trans : {q : Bool} {u v w : World} → Moves q u v → Moves q v w → Moves q u w
Moves-trans a b = record {
  leads = Leads-trans a.leads b.leads;
  later = le_trans a.later b.later;
  stopped = λ h. b.stopped (a.stopped h);
  silent = λ h. Covered-trans a.leads (a.silent h) (b.silent h);
}

-- A quiet move is a move of either kind.
pub Moves-weaken : {q : Bool} {w w' : World} → Moves true w w' → Moves q w w'
Moves-weaken m = record {
  leads = m.leads;
  later = m.later;
  stopped = m.stopped;
  silent = λ h. m.silent refl;
}

Moves-happen : {q : Bool} (w : World) (e : Event) → Moves q w (happen w e)
unfolding happen
Moves-happen w (tick t) = record {
  leads = here;
  later = omega arith;
  stopped = λ h. h;
  silent = λ _. Covered-uncalled w _ here refl;
}
Moves-happen w signal = record {
  leads = here;
  later = le_refl _;
  stopped = λ h. refl;
  silent = λ _. Covered-uncalled w _ here refl;
}
Moves-happen w (other t) = record {
  leads = next here t refl;
  later = le_refl _;
  stopped = λ h. h;
  silent = λ _. Covered-other w _ t refl refl;
}

Moves-happen_all : {q : Bool} (w : World) (es : List Event) → Moves q w (happen_all w es)
unfolding happen_all
Moves-happen_all w [] = Moves-refl w
Moves-happen_all w (e ∷ es) = Moves-trans (Moves-happen w e) (Moves-happen_all (happen w e) es)

pub Moves-next_turn : {q : Bool} (w : World) → Moves q w (next_turn w)
unfolding next_turn
Moves-next_turn w =
    let m = Moves-happen_all w (w.future w.turn).before in
    record {
      leads = m.leads;
      later = m.later;
      stopped = m.stopped;
      silent = λ h. record { bound = (m.silent h).bound };
    }

-- Whatever the world, the process moves it so.
pub record Follows {A : Type 0} (quiet : Bool) (m : Proc A) : Type 0 where
  pub at : (w : World) → Moves quiet w (m w).1

module _ {q : Bool} {A : Type 0} where
  Moves-run_statement :
      (fault : Option SqliteCode) (w : World) (f : ℕ → Write A)
      → ((t : ℕ) (d : Db) → Leads d (f t d).1)
      → Moves q w (run_statement fault w f).1
  Moves-run_statement none w f h = record {
    leads = h w.clock w.mailbox;
    later = le_refl _;
    stopped = λ s. s;
    silent = λ _. Covered-uncalled w _ (h w.clock w.mailbox) refl;
  }
  Moves-run_statement (some c) w f h = Moves-refl w

  pub Follows-write_at :
      (f : ℕ → Write A) → ((t : ℕ) (d : Db) → Leads d (f t d).1) → Follows q (write_at f)
  unfolding write_at
  Follows-write_at f h = record {
    at = λ w.
        Moves-trans (Moves-next_turn w)
          (Moves-run_statement (w.future w.turn).fault (next_turn w) f h);
  }

  pub Follows-write : (f : Write A) → ((d : Db) → Leads d (f d).1) → Follows q (write f)
  unfolding write
  Follows-write f h = Follows-write_at (λ _. f) (λ _. h)

  pub Follows-read : (f : Db → Result A) → Follows q (read f)
  unfolding read
  Follows-read f = Follows-write_at (unchanged f) (λ t d. here)

  pub Follows-pure : (a : A) → Follows q (pure a)
  unfolding pure
  Follows-pure a = record { at = Moves-refl }

  pub Follows-raise : (e : Error) → Follows q (raise {A = A} e)
  unfolding raise
  Follows-raise e = record { at = Moves-refl }

  pub Follows-lift : (r : Result A) → Follows q (lift r)
  unfolding lift
  Follows-lift r = record { at = Moves-refl }

  pub Follows-gets : (f : World → A) → Follows q (gets f)
  unfolding gets
  Follows-gets f = record { at = Moves-refl }

  pub Follows-try : (m : Proc A) → Follows q m → Follows q (try m)
  unfolding try
  Follows-try m h = record { at = h.at }

  pub Follows-if :
      (b : Bool) (m n : Proc A) → Follows q m → Follows q n → Follows q (if b then m else n)
  Follows-if true m n hm hn = hm
  Follows-if false m n hm hn = hn

pub Follows-now : {q : Bool} → Follows q now
unfolding now
Follows-now = Follows-gets (λ w. w.clock)

pub Follows-check_interrupted : {q : Bool} → Follows q check_interrupted
unfolding check_interrupted
Follows-check_interrupted = record { at = Moves-refl }

pub Follows-sleep : {q : Bool} (t : ℕ) → Follows q (sleep t)
unfolding sleep
Follows-sleep t = record {
  at = λ w. record {
    leads = here;
    later = omega arith;
    stopped = λ h. h;
    silent = λ _. Covered-uncalled w _ here refl;
  };
}

pub Follows-new_id : {q : Bool} → Follows q new_id
unfolding new_id
Follows-new_id = record {
  at = λ w. record {
    leads = here;
    later = le_refl _;
    stopped = λ h. h;
    silent = λ _. Covered-uncalled w _ here refl;
  };
}

pub Follows-record_call : (id : String) → Follows false (record_call id)
unfolding record_call
Follows-record_call id = record {
  at = λ w. record { leads = here; later = le_refl _; stopped = λ h. h; silent = λ h. cc };
}

module _ {q : Bool} {A B : Type 0} where
  Moves-continue :
      (r : Result A) (f : A → Proc B) (w : World)
      → ((a : A) → Follows q (f a))
      → Moves q w (continue r f w).1
  Moves-continue (ok a) f w h = (h a).at w
  Moves-continue (err e) f w h = Moves-refl w

  pub Follows-bind :
      (m : Proc A) (f : A → Proc B)
      → Follows q m
      → ((a : A) → Follows q (f a))
      → Follows q (m >>= f)
  unfolding ◌>>=◌
  Follows-bind m f hm hf = record {
    at = λ w. let (r, w') = m w in Moves-trans (hm.at w) (Moves-continue r f w' hf);
  }

module _ {q : Bool} {A B : Type 0} where
  pub Follows-then :
      (m : Proc A) (n : Proc B) → Follows q m → Follows q n → Follows q (m >>= λ _. n)
  Follows-then m n hm hn = Follows-bind m (λ _. n) hm (λ _. hn)

pub ruleset follows_rules = (
  Follows-read, Follows-pure, Follows-raise, Follows-lift, Follows-gets, Follows-try, Follows-if,
  Follows-now, Follows-check_interrupted, Follows-sleep, Follows-new_id, Follows-record_call,
  Follows-bind,
)
