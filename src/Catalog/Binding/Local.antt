-- ===== src/Catalog/Binding/Local.antt =====
-- The binding of a local mailbox (src/catalog/binding.rs), from a catalog that loads.
use harness_talk.Prelude.{
  ℕ, ◌≡◌, ◌≤◌, refl, ap, ◌∙◌, String, String_eq, Bool, true, false, not, ◌||◌, Option, some, List,
  [], ◌∷◌, ◌++◌, ◌==◌, arith, any, all, map, select, length, ltb, inl, inr, Bool-cases, beq_refl,
  nat_eq_iff,
}
use mathlib.Core.List.{append_assoc}
use mathlib.Core.Path.{subst}
use harness_talk.Prelude.Find.{any-append}
use harness_talk.Error.{Result, ok, refuse_if}
use harness_talk.Error.Steps.{both, ok_step, ok_same, then_ok}
use harness_talk.Model.{Peer}
use harness_talk.Validate.{peer_name}
use harness_talk.Db.{Db}
use harness_talk.Catalog.{uuid, text}
use harness_talk.Catalog.Profile.{
  Catalog, Published, Profile, DbStamp, Directory, load, bad_config, same_stamp, check_published,
  check_all_published, current, directory, directory_of, export_all, exported,
}
use harness_talk.Catalog.Binding.{
  Binding, ProfileBinding, validate_profile, validate_profiles, validate, bad_binding, same_profile,
  matches, bound_profile, is_current, binding_of, local_binding,
}

abbrev listed_in : List String → String → Bool
listed_in seen id = any (λ s. s == id) seen

not_seen : (b : Bool) (c : String) → refuse_if b c ≡ ok tt → b ≡ false
not_seen false c h = refl
not_seen true c h = absurd (ground arith)

abbrev Fewer : List String → List String → Type 0
Fewer seen there = (id : String) → listed_in seen id ≡ false → listed_in there id ≡ false

more : (n : String) (seen there : List String) → Fewer seen there → Fewer (n ∷ seen) there
more n seen there fewer id h = fewer id (ground arith)

or_false : (a b : Bool) → (a || b) ≡ false → (a ≡ false) × (b ≡ false)
or_false false b h = (refl, h)
or_false true b h = absurd (ground arith)

or_both : (a b : Bool) → a ≡ false → b ≡ false → (a || b) ≡ false
or_both a b h k = ground arith

both_more :
    (n m : String) (seen there : List String)
    → m ≡ n
    → Fewer seen there
    → Fewer (n ∷ seen) (m ∷ there)
both_more n m seen there same fewer id h =
    let (a, b) = or_false (n == id) (listed_in seen id) h in
    or_both (m == id) (listed_in there id) (rw same a) (fewer id b)

exported_id : (p : Published) (row : Peer) → (exported p row).profile_id ≡ p.profile_id
unfolding exported
exported_id p row = refl

still_few : (a b : ℕ) → a ≤ b → ltb 64 b ≡ false → ltb 64 a ≡ false
still_few a b h k = ground arith

module _ (parse_str : List ℕ → Option String) where
  -- What is published of a profile passes the checks of a binding.
  one_valid :
      (seen there : List String) (p : Published) (row : Peer)
      → ((id : String) → listed_in seen id ≡ false → listed_in there id ≡ false)
      → check_published parse_str seen p ≡ ok tt
      → validate_profile parse_str there (bound_profile (exported p row)) ≡ ok tt
  unfolding check_published validate_profile exported
  one_valid seen there p row fewer h =
      let (a, h) = both (uuid parse_str p.profile_id) _ tt h in
      let (b, h) = both (uuid parse_str p.binding_id) _ tt h in
      let (_, h) = both (text p.display_name 128) _ tt h in
      let (_, h) = both (text p.role 1024) _ tt h in
      let (c, h) = both (peer_name p.peer.name) _ tt h in
      let new = fewer p.profile_id (not_seen (listed_in seen p.profile_id) _ h) in
      then_ok (uuid parse_str p.profile_id) _ a
      ∙ then_ok (uuid parse_str p.binding_id) _ b
      ∙ then_ok (peer_name p.peer.name) _ c
      ∙ ap (λ x. refuse_if x "catalog_duplicate_profile") new

  all_valid :
      (seen there : List String) (ps : List Published) (rows : List Peer)
      → ((id : String) → listed_in seen id ≡ false → listed_in there id ≡ false)
      → check_all_published parse_str seen ps ≡ ok tt
      → validate_profiles parse_str there
          (map bound_profile (select is_current (export_all ps rows)))
        ≡ ok tt
  unfolding check_all_published validate_profiles export_all
  all_valid seen there [] rows fewer h = refl
  all_valid seen there (p ∷ ps) [] fewer h = refl
  all_valid seen there (p ∷ ps) (row ∷ rows) fewer h =
      let (a, h) = both (check_published parse_str seen p) _ tt h in
      elim (Bool-cases (is_current (exported p row))) [
        | inl e ↦ rw e (
            then_ok (validate_profile parse_str there (bound_profile (exported p row))) _
              (one_valid seen there p row fewer a)
            ∙ all_valid (p.profile_id ∷ seen) ((exported p row).profile_id ∷ there) ps rows
                (both_more p.profile_id (exported p row).profile_id seen there (exported_id p row)
                  fewer)
                h)
        | inr e ↦
            rw e
              (all_valid (p.profile_id ∷ seen) there ps rows (more p.profile_id seen there fewer) h)
      ]

  length-export_all :
      (ps : List Published) (rows : List Peer) → length (export_all ps rows) ≤ length ps
  unfolding export_all
  length-export_all [] rows = omega arith
  length-export_all (p ∷ ps) [] = omega arith
  length-export_all (p ∷ ps) (row ∷ rows) = omega (arith, length-export_all ps rows)

  length-bound : (ps : List Profile) → length (map bound_profile (select is_current ps)) ≤ length ps
  length-bound [] = omega arith
  length-bound (p ∷ ps) = ground (arith, length-bound ps)

  same_self : (p : ProfileBinding) → same_profile p p ≡ true
  unfolding same_profile
  same_self p = ground (arith, beq_refl p.profile_id, beq_refl p.binding_id, beq_refl p.peer_name)

  in_middle :
      (p : ProfileBinding) (before after : List ProfileBinding)
      → any (λ q. same_profile q p) (before ++ p ∷ after) ≡ true
  in_middle p before after =
      any-append (λ q. same_profile q p) before (p ∷ after) ∙ ground (arith, same_self p)

  all_there :
      (before ps : List ProfileBinding)
      → all (λ p. any (λ q. same_profile q p) (before ++ ps)) ps ≡ true
  all_there before [] = refl
  all_there before (p ∷ ps) =
      let rest =
        subst (λ xs. all (λ p. any (λ q. same_profile q p) xs) ps ≡ true)
          (append_assoc before (p ∷ []) ps) (all_there (before ++ p ∷ []) ps) in
      ground (arith, in_middle p before ps, rest)

  few :
      (is_absolute : String → Bool) (c : Catalog) (rows : List Peer)
      → bad_config is_absolute c ≡ false
      → bad_binding (binding_of (directory_of c rows)) ≡ false
  few is_absolute c rows h =
      let (h, _) = or_false _ (not (is_absolute c.database)) h in
      let (_, h) = or_false _ (ltb 64 (length c.profiles)) h in
      still_few _ _
        (omega
          (arith, length-export_all c.profiles rows, length-bound (export_all c.profiles rows)))
        h

  valid_of_loaded :
      (is_absolute : String → Bool) (stamp : String → Result DbStamp) (file c : Catalog)
      (rows : List Peer)
      → load parse_str is_absolute stamp file ≡ ok c
      → validate parse_str (binding_of (directory_of c rows)) ≡ ok tt
  unfolding load validate
  valid_of_loaded is_absolute stamp file c rows h =
      let (a, h) = both (refuse_if (bad_config is_absolute file) _) _ c h in
      let (d, h) = both (uuid parse_str file.device_id) _ c h in
      let (m, h) = both (uuid parse_str file.mailbox_id) _ c h in
      let (g, h) = both (uuid parse_str file.generation) _ c h in
      let (_, h) = both (text file.device_name 128) _ c h in
      let (found, _, h) = ok_step (stamp file.database) _ c h in
      let (_, h) = both (refuse_if (not (same_stamp found file.database_stamp)) _) _ c h in
      let (n, h) = both (peer_name file.sender.name) _ c h in
      let (p, h) = both (check_all_published parse_str [] file.profiles) _ c h in
      rw⁻¹ (ok_same h) (
        then_ok (refuse_if (bad_binding (binding_of (directory_of file rows))) _) _ (
          ap (λ x. refuse_if x "catalog_invalid_binding")
            (few is_absolute file rows (not_seen _ _ a)))
        ∙ then_ok (uuid parse_str file.device_id) _ d
        ∙ then_ok (uuid parse_str file.mailbox_id) _ m
        ∙ then_ok (uuid parse_str file.generation) _ g
        ∙ then_ok (peer_name file.sender.name) _ n
        ∙ all_valid [] [] file.profiles rows (λ id k. k) p)

module _ (parse_str : List ℕ → Option String) where
  matches_self : (b : Binding) → validate parse_str b ≡ ok tt → matches parse_str b (some b) ≡ true
  unfolding matches
  matches_self b h = rw h ground (
    arith,
    (nat_eq_iff b.schema_version b.schema_version).1 refl,
    beq_refl b.device_id,
    beq_refl b.mailbox_id,
    beq_refl b.generation,
    beq_refl b.sender,
    all_there parse_str [] b.profiles,
  )

  directory-valid :
      (is_absolute : String → Bool) (stamp : String → Result DbStamp) (opened : Result Db)
      (later : Catalog) (d : Directory)
      → directory parse_str is_absolute stamp opened later ≡ ok d
      → validate parse_str (binding_of d) ≡ ok tt
  unfolding directory
  directory-valid is_absolute stamp opened later d h =
      let (found, l, e) = ok_step (load parse_str is_absolute stamp later) _ d h in
      let (rows, _, e) = ok_step (current opened found) _ d e in
      subst (λ x. validate parse_str (binding_of x) ≡ ok tt) (ok_same e)
        (valid_of_loaded parse_str is_absolute stamp later found rows l)

-- The binding that a local mailbox answers, where it answers one, is valid, and it matches itself,
-- whatever was published, retired or changed before.
pub local_binding-matches :
    (parse_str : List ℕ → Option String) (is_absolute : String → Bool)
    (stamp : String → Result DbStamp) (opened : Result Db) (file later : Catalog)
    (db sender : String) (b : Binding)
    → local_binding parse_str is_absolute stamp opened file later db sender ≡ ok b
    → (validate parse_str b ≡ ok tt) × (matches parse_str b (some b) ≡ true)
unfolding local_binding
local_binding-matches parse_str is_absolute stamp opened file later db sender b h =
    let (c, _, h) = ok_step (load parse_str is_absolute stamp file) _ b h in
    let (_, h) =
      both (refuse_if (not (c.database == db) || not (c.sender.name == sender)) _) _ b h in
    let (d, e, h) = ok_step (directory parse_str is_absolute stamp opened later) _ b h in
    let valid : validate parse_str b ≡ ok tt =
      subst (λ x. validate parse_str x ≡ ok tt) (ok_same h)
        (directory-valid parse_str is_absolute stamp opened later d e) in
    (valid, matches_self parse_str b valid)
