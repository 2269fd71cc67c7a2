-- ===== src/Commands/Caller/Settled.antt =====
-- Whom a command runs for, once that is settled (src/cli.rs).
use harness_talk.Prelude.{
  ◌≡◌, ◌≢◌, ◌⊎◌, inl, inr, Bool-cases, refl, sym, ap, ◌∙◌, String, String_eq, Option_eq, Bool, true,
  false, not, ◌&&◌, Option, none, some, ◌==◌, arith, eq_iff, option_eq_iff,
}
use mathlib.Core.Path.{subst}
use harness_talk.Prelude.Find.{find?-fits}
use harness_talk.Error.{ok, refuse_if}
use harness_talk.Error.Steps.{both, ok_step, ok_same}
use harness_talk.Model.{Peer, is_native}
use harness_talk.Identity.{NativeSession, recognized, unrecognized}
use harness_talk.Db.{Db, PeerRow, peer_on, joined, column_eq, ok_or}
use harness_talk.Store.Peers.{session_peer_on, join_found}
use harness_talk.Commands.Caller.{
  Caller, Chosen, Source, option, htalk_peer, native_session, nonempty, by_name, by_session,
  choose_from, recognized_peer, other_thread, other_session, by_native, conflicts, session,
}

-- Not set, or set to nothing.
abbrev pub IsBlank : Option String → Type 0
IsBlank o = (o ≡ none) ⊎ (o ≡ some "")

-- The peer that the choice found: the one of the name that `--as` gives, else of HTALK_PEER, else of
-- the session that was recognized.
abbrev pub Found : Caller → Db → Source → String → Peer → Type 0
Found caller db option actor own =
    (caller.actor ≡ some actor) × (actor ≢ "") × (peer_on actor db ≡ ok own)
Found caller db htalk_peer actor own =
    IsBlank caller.actor
    × (caller.htalk_peer ≡ some actor)
    × (actor ≢ "")
    × (peer_on actor db ≡ ok own)
Found caller db native_session actor own =
    IsBlank caller.actor
    × IsBlank caller.htalk_peer
    × (recognized_peer caller.native db ≡ some own)
    × (actor ≡ own.name)

pub record Settled (caller : Caller) (db : Db) (c : Chosen) : Type 0 where
  pub found : Found caller db c.source c.actor c.own
  pub of_thread :
      (id : String)
      → caller.codex_thread ≡ some id
      → id ≢ ""
      → (is_native c.own.delivery && c.own.harness == "codex") ≡ true
      → c.own.session_id ≡ some id
  pub of_session :
      (s : String) (w : Option String)
      → caller.native ≡ recognized s w
      → (is_native c.own.delivery && c.own.harness == "claude") ≡ true
      → c.own.session_id ≡ some s

nonempty-some : (o : Option String) (s : String) → nonempty o ≡ some s → (o ≡ some s) × (s ≢ "")
nonempty-some none s h = absurd (ground arith)
nonempty-some (some t) s h = elim (Bool-cases (t == "")) [
  | inl e ↦ absurd (ground arith)
  | inr e ↦
      let same : t ≡ s = ground arith in (ap some same, λ z. absurd (ground (arith, eq_iff t "")))
]

nonempty-none : (o : Option String) → nonempty o ≡ none → IsBlank o
nonempty-none none h = inl refl
nonempty-none (some t) h = elim (Bool-cases (t == "")) [
  | inl e ↦ inr (ap some ((eq_iff t "").0 e))
  | inr e ↦ absurd (ground arith)
]

nonempty_of : (o : Option String) (s : String) → o ≡ some s → s ≢ "" → nonempty o ≡ some s
nonempty_of o s e ne = rw e (ground (arith, eq_iff s ""))

ok_or-some : {A : Type 0} (o : Option A) (a : A) (c : String) → ok_or o c ≡ ok a → o ≡ some a
ok_or-some none a c h = absurd (ground arith)
ok_or-some (some b) a c h = ap some (ok_same h)

passed : (b : Bool) (x : String) → refuse_if b x ≡ ok tt → b ≡ false
passed false x h = refl
passed true x h = absurd (ground arith)

-- A test of three parts that fails where the first two hold fails in the last.
not-false : (b : Bool) → not b ≡ false → b ≡ true
not-false b h = ground arith

third : (a b c : Bool) → (a && b && not c) ≡ false → (a && b) ≡ true → c ≡ true
third true true true h k = refl
third true true false h k = absurd (ground arith)
third true false c h k = absurd (ground arith)
third false b c h k = absurd (ground arith)

some_same : {a b : String} → some a ≡ some b → a ≡ b
some_same h = cc

thread_of :
    (o : Option String) (own : Peer) (id : String)
    → other_thread o own ≡ false
    → o ≡ some id
    → (is_native own.delivery && own.harness == "codex") ≡ true
    → own.session_id ≡ some id
thread_of none own id h e n = absurd (ground arith)
thread_of (some t) own id h e n =
    let same =
      third (is_native own.delivery) (own.harness == "codex") (own.session_id == some t) h n in
    (option_eq_iff String_eq own.session_id (some t)).0 same ∙ e

named_by : (id : String) (o : Option String) → column_eq id o ≡ true → o ≡ some id
named_by id none h = absurd (ground arith)
named_by id (some t) h = ap some ((eq_iff t id).0 h)

joined_session :
    (db : Db) (s : String) (o : Option PeerRow) (own : Peer)
    → ((p : PeerRow) → o ≡ some p → p.session_id ≡ some s)
    → join_found db o ≡ some own
    → own.session_id ≡ some s
unfolding joined
joined_session db s none own fits h = absurd (ground arith)
joined_session db s (some p) own fits h = sym (ap (λ x. x.session_id) (joined_same h)) ∙ fits p refl
  where
    joined_same : some (joined db p) ≡ some own → joined db p ≡ own
    joined_same k = cc

last_holds : (a b c : Bool) → (a && b && c) ≡ true → c ≡ true
last_holds a b c h = ground arith

-- The peer of a session has that session.
session_peer-has :
    (s : String) (db : Db) (own : Peer)
    → session_peer_on "claude" s db ≡ some own
    → own.session_id ≡ some s
unfolding session_peer_on
session_peer-has s db own h =
    joined_session db s _ own
      (λ p e. named_by s p.session_id (
        last_holds (is_native p.delivery) (p.harness == "claude") (column_eq s p.session_id) (
          find?-fits
            (λ q. is_native q.delivery && q.harness == "claude" && column_eq s q.session_id)
            db.peers p e)))
      h

choose-Found :
    (a b : Option String) (caller : Caller) (db : Db) (c : Chosen)
    → nonempty caller.actor ≡ a
    → nonempty caller.htalk_peer ≡ b
    → choose_from a b caller.native db ≡ ok c
    → Found caller db c.source c.actor c.own
unfolding choose_from by_name by_session
choose-Found (some actor) b caller db c ea eb h =
    let (own, e, h) = ok_step (peer_on actor db) _ c h in
    subst (λ x. Found caller db x.source x.actor x.own) (ok_same h)
      ((nonempty-some caller.actor actor ea).0, (nonempty-some caller.actor actor ea).1, e)
choose-Found none (some actor) caller db c ea eb h =
    let (own, e, h) = ok_step (peer_on actor db) _ c h in
    subst (λ x. Found caller db x.source x.actor x.own) (ok_same h)
      (
        nonempty-none caller.actor ea,
        (nonempty-some caller.htalk_peer actor eb).0,
        (nonempty-some caller.htalk_peer actor eb).1,
        e,
      )
choose-Found none none caller db c ea eb h =
    let (own, e, h) = ok_step (ok_or (recognized_peer caller.native db) _) _ c h in
    subst (λ x. Found caller db x.source x.actor x.own) (ok_same h)
      (
        nonempty-none caller.actor ea,
        nonempty-none caller.htalk_peer eb,
        ok_or-some _ own _ e,
        refl,
      )

fourth : (x a b c : Bool) → x ≡ true → (x && a && b && c) ≡ false → (a && b) ≡ true → c ≡ false
fourth x a b c t h k = ground arith

same_session :
    (n : NativeSession) (own : Peer) (s : String) (w : Option String)
    → other_session n own ≡ false
    → n ≡ recognized s w
    → own.session_id ≡ some s
same_session (unrecognized reason) own s w h e = absurd (ground arith)
same_session (recognized t v) own s w h e =
    sym ((option_eq_iff String_eq (some t) own.session_id).0 (not-false _ h)) ∙ ap some (same e)
  where
    same : recognized t v ≡ recognized s w → t ≡ s
    same k = cc

named_session :
    (caller : Caller) (c : Chosen) (s : String) (w : Option String)
    → by_native c.source ≡ false
    → conflicts caller c ≡ false
    → caller.native ≡ recognized s w
    → (is_native c.own.delivery && c.own.harness == "claude") ≡ true
    → c.own.session_id ≡ some s
named_session caller c s w is h e n =
    same_session caller.native c.own s w
      (fourth (not (by_native c.source)) (is_native c.own.delivery) (c.own.harness == "claude") _
        (ap not is) h n)
      e

session_of :
    (caller : Caller) (db : Db) (c : Chosen) (source : Source) (s : String) (w : Option String)
    → c.source ≡ source
    → Found caller db source c.actor c.own
    → conflicts caller c ≡ false
    → caller.native ≡ recognized s w
    → (is_native c.own.delivery && c.own.harness == "claude") ≡ true
    → c.own.session_id ≡ some s
session_of caller db c native_session s w is found h e n =
    session_peer-has s db c.own (rw e at found.2)
session_of caller db c option s w is found h e n =
    named_session caller c s w (ap by_native is) h e n
session_of caller db c htalk_peer s w is found h e n =
    named_session caller c s w (ap by_native is) h e n

-- Where a caller is settled, the answered peer is the one of the name of --as, or where that is not
-- set or empty of HTALK_PEER, or where that is not either of the Claude session that was
-- recognized; a native codex peer has the session of the caller's Codex thread, where that is set
-- and not empty; and a native claude peer that of the recognized session, where there is one.
pub session-Settled :
    (caller : Caller) (db : Db) (c : Chosen) → session caller db ≡ ok c → Settled caller db c
unfolding session
session-Settled caller db c h =
    let from = choose_from (nonempty caller.actor) (nonempty caller.htalk_peer) caller.native db in
    let (d, e, h) = ok_step from _ c h in
    let (t, h) = both (refuse_if (other_thread (nonempty caller.codex_thread) d.own) _) _ c h in
    let (n, h) = both (refuse_if (conflicts caller d) _) _ c h in
    let found =
      choose-Found (nonempty caller.actor) (nonempty caller.htalk_peer) caller db d refl refl e in
    subst (Settled caller db) (ok_same h) (record {
      found = found;
      of_thread = λ id e ne n.
          thread_of _ d.own id (passed _ _ t) (nonempty_of caller.codex_thread id e ne) n;
      of_session = λ s w. session_of caller db d d.source s w refl found (passed _ _ n);
    })
