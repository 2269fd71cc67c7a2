-- ===== src/Receiver/Lives.antt =====
-- The lives of one state directory: runs and rebindings of src/adapters/codex/receive.rs in turn.
use harness_talk.Prelude.{
  ℕ, String, String_eq, Bool, true, false, ◌&&◌, Option, none, some, List, [], ◌∷◌, ◌++◌, ◌==◌,
  take,
}
use harness_talk.Error.{Result, Checked, ok, err, ◌>>=◌}
use harness_talk.Model.{Submission, not_submitted}
use harness_talk.Receiver.{BoundSocket, State, Action, submitted_to, disk_after}
use harness_talk.Receiver.Stream.{Turn, connections}
use harness_talk.Receiver.Start.{Watch, Host, Started, binding_of, start_from, rebind}

-- `ready` is what `operate` does first: the probe of the target and the session's lock.
pub record Run : Type 0 where
  pub host : Host
  pub watch : Watch
  pub others : Bool
  pub ready : State → Checked
  pub script : List (List Turn)

pub record Rebinding : Type 0 where
  pub host : Host
  pub probe : BoundSocket → Checked
  pub later : String → Result BoundSocket

pub data Life : Type 0 where
  running : Run → Life
  rebinding : Rebinding → Life

abbrev pub when_ready : Checked → List Action → List Action
when_ready (ok _) actions = actions
when_ready (err e) actions = []

unfoldable pub operated : (List ℕ → Option String) → Run → Result Started → List Action
unfolding connections
operated parse_str r (err e) = []
operated parse_str r (ok s) =
    s.actions ++ when_ready (r.ready s.state) (connections parse_str 1 s.state r.script)

abbrev pub actions_of_start : Result Started → List Action
actions_of_start (err e) = []
actions_of_start (ok s) = s.actions

unfoldable pub actions_of_rebind : Rebinding → Option State → List Action
unfolding rebind
actions_of_rebind r none = []
actions_of_rebind r (some s) = actions_of_start (rebind r.host r.probe r.later s)

unfoldable pub started : (List ℕ → Option String) → Run → Option State → Result Started
unfolding binding_of start_from
started parse_str r d = do b ← binding_of r.host parse_str r.watch; start_from r.others b d

-- All that a life does from what is saved, unless it is cut off.
unfoldable pub actions_of : (List ℕ → Option String) → Life → Option State → List Action
unfolding operated started actions_of_rebind
actions_of parse_str (running r) d = operated parse_str r (started parse_str r d)
actions_of parse_str (rebinding r) d = actions_of_rebind r d

-- A life that ends, for whatever reason, after `kept` actions.
pub record Cut : Type 0 where
  pub life : Life
  pub kept : ℕ

unfoldable pub actions_until : (List ℕ → Option String) → Cut → Option State → List Action
unfolding actions_of
actions_until parse_str c d = take c.kept (actions_of parse_str c.life d)

-- The actions of all lives in turn, each from what the one before left in the directory.
unfoldable pub history : (List ℕ → Option String) → List Cut → Option State → List Action
unfolding actions_until disk_after
history parse_str [] d = []
history parse_str (c ∷ cs) d =
    let now = actions_until parse_str c d in now ++ history parse_str cs (disk_after d now)

-- Whether the client was called for the message and may have taken it.
abbrev pub may_submit : Submission → Bool
may_submit not_submitted = false
may_submit _ = true

unfoldable pub is_attempt : String → Action → Bool
is_attempt id (submitted_to i submission) = i == id && may_submit submission
is_attempt id _ = false
