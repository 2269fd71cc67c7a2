-- ===== src/Proc/Ends.antt =====
-- Processes that do not fail for a reason of the model's own: the loops of the model run on fuel,
-- and say `system "out_of_fuel"` where it is used up.
use harness_talk.Prelude.{
  ℕ, ◌+◌, ◌≤◌, String, Bool, true, false, ◌≡◌, refl, Option, none, some, arith, if◌then◌else◌,
}
use harness_talk.Error.{SqliteCode, Result, Checked, ok, err, code, system, io, db, interrupted}
use harness_talk.Db.{Db}
use harness_talk.Db.Write.{Write}
use harness_talk.Proc.{
  World, Proc, next_turn, run_statement, write_at, write, unchanged, read, pure, raise, lift, gets,
  try, now, check_interrupted, sleep, new_id, record_call, continue, ◌>>=◌,
}
use harness_talk.Proc.Runs.{Follows}

abbrev pub plain {ℓ} : {A : Type ℓ} → Result A → Bool
plain (err (system c)) = false
plain _ = true

-- The process ends so in every world from the time on.
pub record Ends {A : Type 0} (from : ℕ) (m : Proc A) : Type 0 where
  pub at : (w : World) → from ≤ w.clock → plain (m w).0 ≡ true

module _ {A : Type 0} where
  plain-run_statement :
      (fault : Option SqliteCode) (w : World) (f : ℕ → Write A)
      → ((s : ℕ) (d : Db) → plain (f s d).0 ≡ true)
      → plain (run_statement fault w f).0 ≡ true
  plain-run_statement none w f h = h w.clock w.mailbox
  plain-run_statement (some c) w f h = refl

module _ {t : ℕ} {A : Type 0} where
  pub Ends-write_at :
      (f : ℕ → Write A) → ((s : ℕ) (d : Db) → plain (f s d).0 ≡ true) → Ends t (write_at f)
  unfolding write_at
  Ends-write_at f h = record {
    at = λ w _. plain-run_statement (w.future w.turn).fault (next_turn w) f h;
  }

  pub Ends-write : (f : Write A) → ((d : Db) → plain (f d).0 ≡ true) → Ends t (write f)
  unfolding write
  Ends-write f h = Ends-write_at (λ _. f) (λ _. h)

  pub Ends-read : (f : Db → Result A) → ((d : Db) → plain (f d) ≡ true) → Ends t (read f)
  unfolding read
  Ends-read f h = Ends-write_at (unchanged f) (λ _. h)

  pub Ends-pure : (a : A) → Ends t (pure a)
  unfolding pure
  Ends-pure a = record { at = λ w _. refl }

  pub Ends-code : (c : String) → Ends t (raise {A = A} (code c))
  unfolding raise
  Ends-code c = record { at = λ w _. refl }

  pub Ends-lift : (r : Result A) → plain r ≡ true → Ends t (lift r)
  unfolding lift
  Ends-lift r h = record { at = λ w _. h }

  pub Ends-gets : (f : World → A) → Ends t (gets f)
  unfolding gets
  Ends-gets f = record { at = λ w _. refl }

  pub Ends-try : (m : Proc A) → Ends t (try m)
  unfolding try
  Ends-try m = record { at = λ w _. refl }

  pub Ends-if :
      (b : Bool) (m n : Proc A)
      → (b ≡ true → Ends t m)
      → (b ≡ false → Ends t n)
      → Ends t (if b then m else n)
  Ends-if true m n hm hn = hm refl
  Ends-if false m n hm hn = hn refl

pub Ends-check_interrupted : {t : ℕ} → Ends t check_interrupted
unfolding check_interrupted
Ends-check_interrupted = record { at = λ w _. ground arith }

pub Ends-new_id : {t : ℕ} → Ends t new_id
unfolding new_id
Ends-new_id = record { at = λ w _. refl }

pub Ends-record_call : {t : ℕ} (id : String) → Ends t (record_call id)
unfolding record_call
Ends-record_call id = record { at = λ w _. refl }

module _ {A B : Type 0} where
  plain-continue :
      (r : Result A) (f : A → Proc B) (w : World)
      → plain r ≡ true
      → ((a : A) → plain (f a w).0 ≡ true)
      → plain (continue r f w).0 ≡ true
  plain-continue (ok a) f w hr h = h a
  plain-continue (err (code c)) f w hr h = refl
  plain-continue (err (system c)) f w hr h = hr
  plain-continue (err (io k)) f w hr h = refl
  plain-continue (err (db c)) f w hr h = refl
  plain-continue (err interrupted) f w hr h = refl

module _ {t : ℕ} {A B : Type 0} where
  pub Ends-bind :
      (m : Proc A) (f : A → Proc B)
      → Ends t m
      → Follows false m
      → ((a : A) → Ends t (f a))
      → Ends t (m >>= f)
  unfolding ◌>>=◌
  Ends-bind m f hm fm hf = record {
    at = λ w h.
        let later = (fm.at w).later in
        plain-continue (m w).0 f (m w).1 (hm.at w h) (λ a. (hf a).at (m w).1 (omega arith));
  }

module _ {t : ℕ} {B : Type 0} where
  -- What follows a look at the clock runs from that time on.
  pub Ends-now : (f : ℕ → Proc B) → ((s : ℕ) → t ≤ s → Ends s (f s)) → Ends t (now >>= f)
  unfolding now gets ◌>>=◌
  Ends-now f hf = record { at = λ w h. (hf w.clock h).at w (omega arith) }

  pub Ends-sleep : (s : ℕ) (m : Proc B) → Ends (t + s) m → Ends t (sleep s >>= λ _. m)
  unfolding sleep ◌>>=◌
  Ends-sleep s m hm = record { at = λ w h. hm.at (record w { clock = w.clock + s }) (omega arith) }

  -- What follows a check has passed it.
  pub Ends-lift_then :
      (r : Checked) (m : Proc B)
      → plain r ≡ true
      → (r ≡ ok tt → Ends t m)
      → Ends t (lift r >>= λ _. m)
  unfolding lift ◌>>=◌
  Ends-lift_then (ok tt) m h hm = record { at = (hm refl).at }
  Ends-lift_then (err e) m h hm = record { at = λ w _. h }

module _ {t : ℕ} {A B : Type 0} where
  -- What follows a process that may fail is given how it ended.
  pub Ends-try_then :
      (m : Proc A) (f : Result A → Proc B)
      → Ends t m
      → Follows false m
      → ((r : Result A) → plain r ≡ true → Ends t (f r))
      → Ends t (try m >>= f)
  unfolding try ◌>>=◌
  Ends-try_then m f hm fm hf = record {
    at = λ w h. let later = (fm.at w).later in (hf (m w).0 (hm.at w h)).at (m w).1 (omega arith);
  }
