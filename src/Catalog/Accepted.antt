-- ===== src/Catalog/Accepted.antt =====
-- The two ends of the catalog: what a device exports, and what another one accepts of it.
use harness_talk.Prelude.{
  ℕ, ◌≤◌, String, String_eq, Nat_eq, Bool, true, false, not, ◌≡◌, refl, ◌∙◌, ap, inl, inr, Option,
  List, [], ◌∷◌, ◌==◌, arith, beq_refl, ltb, length, any, Bool-cases,
}
use mathlib.Core.Path.{subst}
use harness_talk.Error.{Result, ok, refuse_if, Result-cases}
use harness_talk.Error.Steps.{both, then_ok, stopped_at, ok_same}
use harness_talk.Model.{Peer, Delivery, native, pull}
use harness_talk.Model.Words.{delivery_as_str}
use harness_talk.Validate.{peer_name}
use harness_talk.Db.{Db, is_some}
use harness_talk.Catalog.{uuid, text}
use harness_talk.Catalog.Profile.{
  DbStamp, Published, Catalog, Directory, same_peer, check_published, check_all_published,
  bad_config, same_stamp, load, current, binding_state, exported, export_all, directory_of,
  directory,
}
use harness_talk.Catalog.Trust.{TrustedDevice, accept_profile, accept_all, mismatches, accept}

delivery_known : (d : Delivery) → any (λ w. w == delivery_as_str d) ("native" ∷ "pull" ∷ []) ≡ true
unfolding delivery_as_str
delivery_known native = refl
delivery_known pull = refl

state_known :
    (p : Published) (row : Peer)
    → any (λ w. w == binding_state p row) ("current" ∷ "retired" ∷ "changed" ∷ []) ≡ true
unfolding binding_state
state_known p row = elim (Bool-cases (is_some row.retired_at)) [
  | inl e ↦ rw e refl
  | inr e ↦ elim (Bool-cases (same_peer row p.peer)) [
    | inl s ↦ rw (e, s) refl
    | inr s ↦ rw (e, s) refl
  ]
]

profile_id-exported : (p : Published) (row : Peer) → p.profile_id ≡ (exported p row).profile_id
unfolding exported
profile_id-exported p row = refl

length-export_all :
    (ps : List Published) (rows : List Peer) → length (export_all ps rows) ≤ length ps
unfolding export_all
length-export_all [] rows = omega arith
length-export_all (p ∷ ps) [] = omega arith
length-export_all (p ∷ ps) (row ∷ rows) = omega (arith, length-export_all ps rows)

-- `register` asks this of every peer.
abbrev pub HarnessNames : List Published → Type 0
HarnessNames [] = Unit
HarnessNames (p ∷ ps) = (peer_name p.peer.harness ≡ ok tt) × HarnessNames ps

-- The trusted device is the one whose catalog this is.
pub record Pins (d : TrustedDevice) (c : Catalog) : Type 0 where
  pub device : c.device_id ≡ d.device_id
  pub mailbox : c.mailbox_id ≡ d.mailbox_id
  pub generation : c.generation ≡ d.generation
  pub sender : c.sender.name ≡ d.sender

passed_length :
    (is_absolute : String → Bool) (c : Catalog)
    → refuse_if (bad_config is_absolute c) "catalog_invalid_config" ≡ ok tt
    → ltb 64 (length c.profiles) ≡ false
passed_length is_absolute c h = ground arith

pinned :
    (d : TrustedDevice) (c : Catalog) (rows : List Peer)
    → Pins d c
    → ltb 64 (length c.profiles) ≡ false
    → mismatches d (directory_of c rows) ≡ false
pinned d c rows pins short =
    rw
      (
        pins.device,
        pins.mailbox,
        pins.generation,
        pins.sender,
        beq_refl d.device_id,
        beq_refl d.mailbox_id,
        beq_refl d.generation,
        beq_refl d.sender,
      )
      (ground (arith, length-export_all c.profiles rows))

module _ (parse_str : List ℕ → Option String) where
  accept_profile-exported :
      (seen : List String) (p : Published) (row : Peer)
      → check_published parse_str seen p ≡ ok tt
      → peer_name p.peer.harness ≡ ok tt
      → accept_profile parse_str seen (exported p row) ≡ ok tt
  unfolding check_published accept_profile exported
  accept_profile-exported seen p row h harness =
      let (a, h1) = both (uuid parse_str p.profile_id) _ tt h in
      let (b, h2) = both (uuid parse_str p.binding_id) _ tt h1 in
      let (c, h3) = both (text p.display_name 128) _ tt h2 in
      let (d, h4) = both (text p.role 1024) _ tt h3 in
      let (e, h5) = both (peer_name p.peer.name) _ tt h4 in
      rw (a, b, e, c, d, harness, delivery_known p.peer.delivery, state_known p row) (ground arith)

  accept_all-export_all :
      (seen : List String) (ps : List Published) (rows : List Peer)
      → check_all_published parse_str seen ps ≡ ok tt
      → HarnessNames ps
      → accept_all parse_str seen (export_all ps rows) ≡ ok tt
  unfolding check_all_published accept_all export_all
  accept_all-export_all seen [] rows h harness = refl
  accept_all-export_all seen (p ∷ ps) [] h harness = refl
  accept_all-export_all seen (p ∷ ps) (row ∷ rows) h harness =
      let (one, rest) = both (check_published parse_str seen p) _ tt h in
      then_ok _ _ (accept_profile-exported seen p row one harness.0)
      ∙ subst (λ id. accept_all parse_str (id ∷ seen) (export_all ps rows) ≡ ok tt)
          (profile_id-exported p row)
          (accept_all-export_all (p.profile_id ∷ seen) ps rows rest harness.1)

  module _ (is_absolute : String → Bool) (stamp : String → Result DbStamp) where
    load_checks :
        (read c : Catalog)
        → load parse_str is_absolute stamp read ≡ ok c
        → (read ≡ c)
          × (ltb 64 (length read.profiles) ≡ false)
          × (text read.device_name 128 ≡ ok tt)
          × (check_all_published parse_str [] read.profiles ≡ ok tt)
    unfolding load
    load_checks read c h =
        let (a, h1) =
          both (refuse_if (bad_config is_absolute read) "catalog_invalid_config") _ c h in
        let (b, h2) = both (uuid parse_str read.device_id) _ c h1 in
        let (_, h3) = both (uuid parse_str read.mailbox_id) _ c h2 in
        let (_, h4) = both (uuid parse_str read.generation) _ c h3 in
        let (t, h5) = both (text read.device_name 128) _ c h4 in
        elim (Result-cases (stamp read.database)) [
          | inl (found, e) ↦
              let (_, h6) =
                both
                  (refuse_if (not (same_stamp found read.database_stamp))
                    "catalog_mailbox_replaced")
                  _ c (rw e at h5) in
              let (_, h7) = both (peer_name read.sender.name) _ c h6 in
              let (all_checked, h8) =
                both (check_all_published parse_str [] read.profiles) _ c h7 in
              (ok_same h8, passed_length is_absolute read a, t, all_checked)
          | inr (x, e) ↦ absurd (stopped_at _ e h5)
        ]

    accept-directory_of :
        (d : TrustedDevice) (c : Catalog) (rows : List Peer)
        → Pins d c
        → ltb 64 (length c.profiles) ≡ false
        → text c.device_name 128 ≡ ok tt
        → check_all_published parse_str [] c.profiles ≡ ok tt
        → HarnessNames c.profiles
        → accept parse_str d (directory_of c rows) ≡ ok tt
    unfolding accept
    accept-directory_of d c rows pins short t checked harness =
        rw (pinned d c rows pins short, t)
          (accept_all-export_all [] c.profiles rows checked harness)

    -- The directory that a device exports of its catalog is accepted by one whose trust file pins
    -- its device, its mailbox, its generation and its sender, where the harness of every published
    -- peer is a name that register accepts.
    pub accept-directory :
        (d : TrustedDevice) (opened : Result Db) (read : Catalog) (dir : Directory)
        → directory parse_str is_absolute stamp opened read ≡ ok dir
        → Pins d read
        → HarnessNames read.profiles
        → accept parse_str d dir ≡ ok tt
    unfolding directory
    accept-directory d opened read dir h pins harness =
        elim (Result-cases (load parse_str is_absolute stamp read)) [
          | inl (c, e) ↦ elim (Result-cases (current opened c)) [
            | inl (rows, er) ↦
                let (same, short, t, checked) = load_checks read c e in
                subst (λ x. accept parse_str d x ≡ ok tt)
                  (ap (λ x. directory_of x rows) same ∙ ok_same (rw (e, er) at h))
                  (accept-directory_of d read rows pins short t checked harness)
            | inr (x, er) ↦ absurd (stopped_at _ er (rw e at h))
          ]
          | inr (x, e) ↦ absurd (stopped_at _ e h)
        ]
