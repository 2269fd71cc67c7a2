-- ===== src/Identity/Sound.antt =====
-- What a recognized session stands for (src/identity.rs).
use harness_talk.Prelude.{
  ◌≡◌, ◌≢◌, refl, ap, ◌∙◌, inl, inr, String, String_eq, Bool, true, false, not, Option, none, some,
  [], ℤ, int_eq→eq, arith, Bool-cases, eq_iff, if◌then◌else◌,
}
use harness_talk.Db.{is_some}
use harness_talk.Identity.{
  Process, max_depth, climb, ancestry, recognized, NativeSession, Host, present, claude_session,
  by_variables, by_pid, by_process, by_file, by_ancestry, valid_variables, metadata_matches,
  is_text, is_pid, Metadata, SessionFile, object, unreadable, not_an_object, unrecognized,
}
use harness_talk.Identity.Lineage.{Climbed, climb_found, no_answer}

-- What a recognized session stands for, at the process that asks.
pub record Known (host : Host) (pid : ℤ) (session : String) (workspace : Option String)
    : Type 0 where
  pub named : present host "CLAUDE_CODE_SESSION_ID" ≡ some session
  pub outside_codex : present host "CODEX_THREAD_ID" ≡ none
  pub claude : ℤ
  pub process : Process
  pub runs : host.table.process claude ≡ some process
  pub metadata : Metadata
  pub saved : host.session_file claude ≡ object metadata
  pub same_session : metadata.session_id ≡ some session
  pub same_pid : metadata.pid ≡ some claude
  pub same_start : metadata.proc_start ≡ some process.started
  pub in_workspace : metadata.cwd ≡ workspace
  pub asker : Process
  pub asks : host.table.process pid ≡ some asker
  pub descends : Climbed host.table claude max_depth asker.parent []

is_text-some : (o : Option String) (s : String) → is_text o s ≡ true → o ≡ some s
is_text-some none s h = absurd (ground arith)
is_text-some (some t) s h = ap some ((eq_iff t s).0 h)

is_pid-some : (o : Option ℤ) (pid : ℤ) → is_pid o pid ≡ true → o ≡ some pid
is_pid-some none pid h = absurd (ground arith)
is_pid-some (some p) pid h = ap some (int_eq→eq p pid h)

matches_each :
    (m : Metadata) (session : String) (claude : ℤ) (start : String)
    → metadata_matches m session claude start ≡ true
    → (m.session_id ≡ some session) × (m.pid ≡ some claude) × (m.proc_start ≡ some start)
unfolding metadata_matches
matches_each m session claude start h = (
  is_text-some m.session_id session (ground arith),
  is_pid-some m.pid claude (ground arith),
  is_text-some m.proc_start start (ground arith),
)

abbrev Recognizes : NativeSession → String → Option String → Type 0
Recognizes answer session workspace = answer ≡ recognized session workspace

same_answer :
    (s t : String) (v w : Option String) → recognized s v ≡ recognized t w → (s ≡ t) × (v ≡ w)
same_answer s t v w h = (cc, cc)

module _ (host : Host) (pid : ℤ) (session : String) (workspace : Option String) where
  asked_by :
      (claude : ℤ) (o : Option Process)
      → host.table.process pid ≡ o
      → (elim o [ none ↦ none | some p ↦ climb host.table claude max_depth p.parent [] ])
        ≡ some none
      → (p : Process) × (host.table.process pid ≡ some p)
        × Climbed host.table claude max_depth p.parent []
  asked_by claude none e h = absurd (no_answer h)
  asked_by claude (some p) e h = (p, e, climb_found host.table claude max_depth p.parent [] h)

  asked_climb :
      (claude : ℤ)
      → ancestry host.table claude pid ≡ some none
      → (p : Process) × (host.table.process pid ≡ some p)
        × Climbed host.table claude max_depth p.parent []
  unfolding ancestry
  asked_climb claude h = asked_by claude (host.table.process pid) refl h

  by_ancestry_found :
      (s : String) (w : Option String) (o : Option (Option String))
      → Recognizes (by_ancestry s w o) session workspace
      → (o ≡ some none) × (s ≡ session) × (w ≡ workspace)
  unfolding by_ancestry
  by_ancestry_found s w none h = absurd (ground arith)
  by_ancestry_found s w (some (some reason)) h = absurd (ground arith)
  by_ancestry_found s w (some none) h =
      (refl, (same_answer s session w workspace h).0, (same_answer s session w workspace h).1)

  by_file_found :
      (s : String) (claude : ℤ) (started : String) (f : SessionFile)
      → Recognizes (by_file host s claude started pid f) session workspace
      → (m : Metadata) × (f ≡ object m)
        × (metadata_matches m session claude started ≡ true)
        × (m.cwd ≡ workspace)
        × (s ≡ session)
        × (ancestry host.table claude pid ≡ some none)
  unfolding by_file
  by_file_found s claude started unreadable h = absurd (ground arith)
  by_file_found s claude started not_an_object h = absurd (ground arith)
  by_file_found s claude started (object m) h =
      elim (Bool-cases (metadata_matches m s claude started)) [
        | inl e ↦
            let (found, same, there) = by_ancestry_found s m.cwd _ (rw e at h) in
            (m, refl, rw same at e, there, same, found)
        | inr e ↦ absurd (mismatch (rw e at h))
      ]
    where
      mismatch : {r : String} → Recognizes (unrecognized r) session workspace → ⊥
      mismatch h = ground arith

  by_process_found :
      (s : String) (claude : ℤ) (o : Option Process)
      → host.table.process claude ≡ o
      → present host "CLAUDE_CODE_SESSION_ID" ≡ some s
      → present host "CODEX_THREAD_ID" ≡ none
      → Recognizes (by_process host s claude pid o) session workspace
      → Known host pid session workspace
  unfolding by_process
  by_process_found s claude none e named outside h = absurd (ground arith)
  by_process_found s claude (some p) e named outside h =
      let (m, saved, same, there, is_s, found) =
        by_file_found s claude p.started (host.session_file claude) h in
      let (asker, asks, descends) = asked_climb claude found in
      record {
        named = named ∙ ap some is_s;
        outside_codex = outside;
        claude = claude;
        process = p;
        runs = e;
        metadata = m;
        saved = saved;
        same_session = (matches_each m session claude p.started same).0;
        same_pid = (matches_each m session claude p.started same).1;
        same_start = (matches_each m session claude p.started same).2;
        in_workspace = there;
        asker = asker;
        asks = asks;
        descends = descends;
      }

  by_pid_found :
      (s : String) (o : Option ℤ)
      → present host "CLAUDE_CODE_SESSION_ID" ≡ some s
      → present host "CODEX_THREAD_ID" ≡ none
      → Recognizes (by_pid host s pid o) session workspace
      → Known host pid session workspace
  unfolding by_pid
  by_pid_found s none named outside h = absurd (ground arith)
  by_pid_found s (some claude) named outside h =
      by_process_found s claude (host.table.process claude) refl named outside h

  not_recognized : {r : String} → unrecognized r ≢ recognized session workspace
  not_recognized h = ground arith

  unless_refused :
      (b c : Bool) (r q : String) (y : NativeSession)
      → Recognizes (if b then unrecognized r else if c then unrecognized q else y) session workspace
      → (c ≡ false) × Recognizes y session workspace
  unless_refused true c r q y h = absurd (not_recognized h)
  unless_refused false true r q y h = absurd (not_recognized h)
  unless_refused false false r q y h = (refl, h)

  absent : (o : Option String) → is_some o ≡ false → o ≡ none
  absent none h = refl
  absent (some a) h = absurd (ground arith)

  by_variables_found :
      (a b : Option String)
      → present host "CLAUDE_CODE_SESSION_ID" ≡ a
      → Recognizes (by_variables host pid a b) session workspace
      → Known host pid session workspace
  unfolding by_variables
  by_variables_found none b e h = absurd (not_recognized h)
  by_variables_found (some s) none e h = absurd (not_recognized h)
  by_variables_found (some s) (some claude_pid) e h =
      let (outside, k) =
        unless_refused (not (valid_variables host s claude_pid))
          (is_some (present host "CODEX_THREAD_ID")) _ _ _ h in
      by_pid_found s (host.parse_pid claude_pid) e (absent _ outside) k

-- A session that is recognized is the one that the environment names outside of Codex; its process
-- runs, its session file names the same session, process and start time and the answered workspace;
-- and the process that asks descends from it over at most 64 processes, none of which looks like a
-- client.
pub claude_session-Known :
    (host : Host) (pid : ℤ) (session : String) (workspace : Option String)
    → claude_session host pid ≡ recognized session workspace
    → Known host pid session workspace
unfolding claude_session
claude_session-Known host pid session workspace h =
    by_variables_found host pid session workspace (present host "CLAUDE_CODE_SESSION_ID")
      (present host "CLAUDE_PID") refl h
