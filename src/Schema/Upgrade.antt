-- ===== src/Schema/Upgrade.antt =====
-- What an upgrade brings a file to, and what it keeps.
use harness_talk.Prelude.{
  ℕ, ℤ, pos, negsuc, Bool, true, false, not, ◌≡◌, ◌∙◌, sym, ap, ◌⊎◌, inl, inr, refl, List, [], ◌∷◌,
  ◌++◌, arith, map, Bool-cases, nat_eq_iff,
}
use harness_talk.Error.{Checked, ok, refuse_if, map_err}
use harness_talk.Error.Steps.{both, ok_step, ok_same}
use harness_talk.Model.{native}
use harness_talk.Db.{PeerRow, Db}
use harness_talk.Db.Peers.{insert_peer}
use harness_talk.Schema.{
  File, is_version, foreign_keys, legacy_structure, check_version, rebuild, upgrade, create,
  finish_change, change, ensure, is_ready,
}

abbrev pub as_native : PeerRow → PeerRow
as_native p = record p { delivery = native }

-- The tables with their peers told to be native.
abbrev pub with_native : Db → Db
with_native d = record d { peers = map as_native d.peers }

insert_peer-rows :
    (p : PeerRow) (d d' : Db)
    → insert_peer p d ≡ ok d'
    → d' ≡ record d { peers = d.peers ++ p ∷ [] }
unfolding insert_peer
insert_peer-rows p d d' h = ground arith

append_nil : (ps : List PeerRow) → ps ++ [] ≡ ps
append_nil [] = refl
append_nil (p ∷ ps) = ap (λ x. p ∷ x) (append_nil ps)

append_assoc : (xs ys zs : List PeerRow) → (xs ++ ys) ++ zs ≡ xs ++ (ys ++ zs)
append_assoc [] ys zs = refl
append_assoc (x ∷ xs) ys zs = ap (λ l. x ∷ l) (append_assoc xs ys zs)

rebuild-rows :
    (ps : List PeerRow) (d d' : Db)
    → rebuild ps d ≡ ok d'
    → d' ≡ record d { peers = d.peers ++ map as_native ps }
unfolding rebuild
rebuild-rows [] d d' h =
    sym (ok_same h) ∙ ap (λ l. record d { peers = l }) (sym (append_nil d.peers))
rebuild-rows (p ∷ ps) d d' h =
    let (e, one, rest) = ok_step (insert_peer (as_native p) d) _ d' h in
    rebuild-rows ps e d' rest
    ∙ ap {A = Db} (λ x. record x { peers = x.peers ++ map as_native ps })
        (insert_peer-rows (as_native p) d e one)
    ∙ ap (λ l. record d { peers = l }) (append_assoc d.peers (as_native p ∷ []) (map as_native ps))

finish_change_ends :
    (stopped : Bool) (f f' : File)
    → finish_change stopped f ≡ ok f'
    → (f'.version ≡ pos 3) × (f'.rows ≡ f.rows)
unfolding finish_change
finish_change_ends stopped f f' h = (ground arith, ground arith)

create_keeps : (f f' : File) → create f ≡ ok f' → f'.rows ≡ f.rows
unfolding create
create_keeps f f' h = ground arith

upgrade_keeps :
    (backup : Checked) (f f' : File) → upgrade backup f ≡ ok f' → f'.rows ≡ with_native f.rows
unfolding upgrade
upgrade_keeps backup f f' h =
    let (_, h1) = both (legacy_structure f.objects) _ f' h in
    let (_, h2) = both (foreign_keys f.references_hold) _ f' h1 in
    let (_, h3) = both (refuse_if (not f.is_whole) "database_integrity_check_failed") _ f' h2 in
    let (_, _, h4) = ok_step (map_err _ backup) _ f' h3 in
    let (d, e, h5) = ok_step (rebuild f.rows.peers (record f.rows { peers = [] })) _ f' h4 in
    ap (λ x. x.rows) (sym (ok_same h5)) ∙ rebuild-rows f.rows.peers _ d e

change_ends :
    (backup : ℤ → Checked) (stopped : Bool) (f f' : File)
    → is_version 3 f.version ≡ false
    → change backup stopped f ≡ ok f'
    → (f'.version ≡ pos 3) × ((f'.rows ≡ f.rows) ⊎ (f'.rows ≡ with_native f.rows))
unfolding change
change_ends backup stopped f f' old h =
    let (_, h1) = both (check_version f.version) _ f' h in
    elim (Bool-cases (is_version 0 f.version)) [
      | inl z ↦
          let (g, e, h2) = ok_step (create f) (finish_change stopped) f' (rw (old, z) at h1) in
          let (v, same) = finish_change_ends stopped g f' h2 in (v, inl (same ∙ create_keeps f g e))
      | inr z ↦
          let (g, e, h2) =
            ok_step (upgrade (backup f.version) f) (finish_change stopped) f' (rw (old, z) at h1) in
          let (v, same) = finish_change_ends stopped g f' h2 in
          (v, inr (same ∙ upgrade_keeps (backup f.version) f g e))
    ]

is_version-eq : (n : ℕ) (v : ℤ) → is_version n v ≡ true → v ≡ pos n
is_version-eq n (pos m) h = ap pos ((nat_eq_iff m n).0 h)
is_version-eq n (negsuc m) h = absurd (ground arith)

-- A file that opens is of version 3. Its tables are as they were, or their peers are all made
-- native and nothing else in them changes: messages, retirements and waits are kept.
pub ensure_ends :
    (backup : ℤ → Checked) (stopped : Bool) (f f' : File)
    → ensure backup stopped f ≡ ok f'
    → (f'.version ≡ pos 3) × ((f'.rows ≡ f.rows) ⊎ (f'.rows ≡ with_native f.rows))
unfolding ensure
ensure_ends backup stopped f f' h =
    let (_, h1) = both (check_version f.version) _ f' h in
    elim (Bool-cases (is_version 3 f.version)) [
      | inl e ↦
          let (_, h2) =
            both (refuse_if (not (is_ready f.objects)) "invalid_database_schema") (ok f) f'
              (rw e at h1) in
          let same = sym (ok_same h2) in
          (ap (λ x. x.version) same ∙ is_version-eq 3 f.version e, inl (ap (λ x. x.rows) same))
      | inr e ↦ change_ends backup stopped f f' e (rw e at h1)
    ]
