-- ===== src/Catalog/Choose/Pinned.antt =====
-- The one profile that a selector names (src/catalog/discover/mod.rs), after a search.
use harness_talk.Prelude.{
  ℕ, ◌≡◌, ◌≢◌, refl, sym, arith, eq_iff, String, ◌++◌, Bool, true, false, not, Option, List, [],
  ◌∷◌, select, map, All, if◌then◌else◌,
}
use mathlib.Core.List.{Mem, mem-cons_self, mem-cons_of_mem}
use mathlib.Core.Path.{subst}
use harness_talk.Prelude.Select.{All-append}
use harness_talk.Error.{Result, Checked, ok, err}
use harness_talk.Error.Steps.{ok_same}
use harness_talk.Catalog.{uuid}
use harness_talk.Catalog.Profile.{Profile, Directory}
use harness_talk.Catalog.Trust.{TrustedDevice}
use harness_talk.Catalog.Browse.{Event, Listing, Found, is_err, browse}
use harness_talk.Catalog.Browse.Trusted.{IsTrusted, AllTrusted, browse-AllTrusted}
use harness_talk.Catalog.Choose.{Choice, choice, wanted, offers, all_offers, only, select_profile}

-- The profile is current and has the selector as its ID, where that is a UUID, and else as its
-- display name.
pub record IsNamed (parse_str : List ℕ → Option String) (selector : String) (p : Profile)
    : Type 0 where
  pub is_current : p.binding_state ≡ "current"
  pub by_id : uuid parse_str selector ≡ ok tt → p.profile_id ≡ selector
  pub by_display_name : uuid parse_str selector ≢ ok tt → p.display_name ≡ selector

-- What a choice was made from: a profile that the selector names, in a directory with the property.
pub record ChosenFrom (R : Found → Type 0) (parse_str : List ℕ → Option String) (selector : String)
    (c : Choice) : Type 0 where
  pub item : Found
  pub profile : Profile
  pub holds : R item
  pub is_named : IsNamed parse_str selector profile
  pub is_listed : Mem profile item.directory.profiles
  pub is_device : c.device ≡ item.device
  pub is_profile : c.profile.profile_id ≡ profile.profile_id
  pub is_binding : c.profile.binding_id ≡ profile.binding_id
  pub is_peer : c.profile.peer_name ≡ profile.peer_name

-- Every profile that the selector names, in any of the directories, is the choice.
abbrev pub OnlyOne : (List ℕ → Option String) → String → List Found → Choice → Type 0
OnlyOne parse_str selector found c =
    All (λ f. All (λ p. IsNamed parse_str selector p → c ≡ choice f.device p) f.directory.profiles)
      found

abbrev identity : (List ℕ → Option String) → String → Bool
identity parse_str selector = not (is_err (uuid parse_str selector))

wanted-IsNamed :
    (parse_str : List ℕ → Option String) (selector : String) (r : Checked) (p : Profile)
    → uuid parse_str selector ≡ r
    → wanted (not (is_err r)) selector p ≡ true
    → IsNamed parse_str selector p
wanted-IsNamed parse_str selector (ok u) p e w = record {
  is_current = ground (arith, eq_iff p.binding_state "current");
  by_id = λ _. ground (arith, eq_iff p.profile_id selector);
  by_display_name = λ ne. absurd (ne e);
}
wanted-IsNamed parse_str selector (err x) p e w = record {
  is_current = ground (arith, eq_iff p.binding_state "current");
  by_id = λ i. absurd (ground arith);
  by_display_name = λ _. ground (arith, eq_iff p.display_name selector);
}

IsNamed-wanted :
    (parse_str : List ℕ → Option String) (selector : String) (r : Checked) (p : Profile)
    → uuid parse_str selector ≡ r
    → IsNamed parse_str selector p
    → wanted (not (is_err r)) selector p ≡ true
IsNamed-wanted parse_str selector (ok u) p e n =
    ground (
      arith,
      n.is_current,
      n.by_id e,
      eq_iff p.binding_state "current",
      eq_iff p.profile_id selector,
    )
IsNamed-wanted parse_str selector (err x) p e n =
    let named : p.display_name ≡ selector = n.by_display_name (λ i. absurd (ground arith)) in
    ground
      (arith, n.is_current, named, eq_iff p.binding_state "current", eq_iff p.display_name selector)

module _ (c : Choice) where
  All-before : (xs ys : List Choice) → All (λ d. c ≡ d) (xs ++ ys) → All (λ d. c ≡ d) xs
  All-before [] ys h = tt
  All-before (x ∷ xs) ys h = (h.0, All-before xs ys h.1)

  All-after : (xs ys : List Choice) → All (λ d. c ≡ d) (xs ++ ys) → All (λ d. c ≡ d) ys
  All-after [] ys h = h
  All-after (x ∷ xs) ys h = All-after xs ys h.1

  only-All : (cs : List Choice) → only cs ≡ ok c → All (λ d. c ≡ d) cs
  only-All [] h = absurd (ground arith)
  only-All (d ∷ []) h = (sym (ok_same h), tt)
  only-All (d ∷ d' ∷ ds) h = absurd (ground arith)

  module _ (identity_only : Bool) (selector : String) (f : Found) where
    head_of :
        (p : Profile) (ps : List Profile) (b : Bool)
        → All (λ d. c ≡ d) (map (choice f.device) (if b then p ∷ ps else ps))
        → (b ≡ true → c ≡ choice f.device p) × All (λ d. c ≡ d) (map (choice f.device) ps)
    head_of p ps true h = (λ _. h.0, h.1)
    head_of p ps false h = (λ e. absurd (ground arith), h)

    offers-only :
        (ps : List Profile)
        → All (λ d. c ≡ d) (map (choice f.device) (select (wanted identity_only selector) ps))
        → All (λ p. wanted identity_only selector p ≡ true → c ≡ choice f.device p) ps
    offers-only [] h = tt
    offers-only (p ∷ ps) h =
        let (here, later) =
          head_of p (select (wanted identity_only selector) ps) (wanted identity_only selector p)
            h in
        (here, offers-only ps later)

  All-IsNamed :
      (parse_str : List ℕ → Option String) (selector : String) (f : Found) (ps : List Profile)
      → All (λ p. wanted (identity parse_str selector) selector p ≡ true → c ≡ choice f.device p) ps
      → All (λ p. IsNamed parse_str selector p → c ≡ choice f.device p) ps
  All-IsNamed parse_str selector f [] h = tt
  All-IsNamed parse_str selector f (p ∷ ps) h = (
    λ n. h.0 (IsNamed-wanted parse_str selector _ p refl n),
    All-IsNamed parse_str selector f ps h.1,
  )

  all_offers-OnlyOne :
      (parse_str : List ℕ → Option String) (selector : String) (found : List Found)
      → All (λ d. c ≡ d) (all_offers (identity parse_str selector) selector found)
      → OnlyOne parse_str selector found c
  unfolding all_offers
  all_offers-OnlyOne parse_str selector [] h = tt
  all_offers-OnlyOne parse_str selector (f ∷ fs) h =
      let own = offers (identity parse_str selector) selector f in
      let rest = all_offers (identity parse_str selector) selector fs in
      (
        All-IsNamed parse_str selector f f.directory.profiles (
            offers-only (identity parse_str selector) selector f f.directory.profiles
              (All-before own rest h)),
        all_offers-OnlyOne parse_str selector fs (All-after own rest h),
      )

module _ (R : Found → Type 0) (parse_str : List ℕ → Option String) (selector : String) where
  if-All :
      (f : Found) (p : Profile) (ps : List Profile) (b : Bool)
      → wanted (identity parse_str selector) selector p ≡ b
      → R f
      → Mem p f.directory.profiles
      → All (ChosenFrom R parse_str selector) (map (choice f.device) ps)
      → All (ChosenFrom R parse_str selector) (map (choice f.device) (if b then p ∷ ps else ps))
  if-All f p ps true w r m h = (
    record {
      item = f;
      profile = p;
      holds = r;
      is_named = wanted-IsNamed parse_str selector _ p refl w;
      is_listed = m;
      is_device = refl;
      is_profile = refl;
      is_binding = refl;
      is_peer = refl;
    },
    h,
  )
  if-All f p ps false w r m h = h

  offers-All :
      (f : Found) (ps : List Profile)
      → R f
      → ((p : Profile) → Mem p ps → Mem p f.directory.profiles)
      → All
          (ChosenFrom R parse_str selector)
          (map (choice f.device) (select (wanted (identity parse_str selector) selector) ps))
  offers-All f [] r m = tt
  offers-All f (p ∷ ps) r m =
      if-All f p (select (wanted (identity parse_str selector) selector) ps)
        (wanted (identity parse_str selector) selector p) refl r (m p mem-cons_self)
        (offers-All f ps r (λ q i. m q (mem-cons_of_mem p i)))

  all_offers-All :
      (found : List Found)
      → All R found
      → All
          (ChosenFrom R parse_str selector)
          (all_offers (identity parse_str selector) selector found)
  unfolding all_offers
  all_offers-All [] h = tt
  all_offers-All (f ∷ fs) h =
      All-append (ChosenFrom R parse_str selector) (offers (identity parse_str selector) selector f)
        _ (offers-All f f.directory.profiles h.0 (λ p m. m)) (all_offers-All fs h.1)

  only-ChosenFrom :
      (cs : List Choice) (c : Choice)
      → only cs ≡ ok c
      → All (ChosenFrom R parse_str selector) cs
      → ChosenFrom R parse_str selector c
  only-ChosenFrom [] c e h = cc
  only-ChosenFrom (d ∷ []) c e h = subst (ChosenFrom R parse_str selector) (ok_same e) h.0
  only-ChosenFrom (d ∷ d' ∷ ds) c e h = cc

-- Where a selector names a profile among what a search found, whatever was advertised and fetched:
-- the choice is a profile that is listed as current in a directory that passed accept for the
-- device, the device is the first with its ID in the trust file, the profile has the selector as
-- its ID, where the selector is a UUID, and else as its display name; and each current profile that
-- the selector names so, in any directory that was found, is that choice.
pub select_profile-ChosenFrom :
    (parse_str : List ℕ → Option String) (fetch : TrustedDevice → ℕ → Result Directory)
    (trusted : List TrustedDevice) (failed : Bool) (events : List Event) (l : Listing)
    (selector : String) (c : Choice)
    → browse parse_str fetch trusted failed events ≡ ok l
    → select_profile parse_str l.found selector ≡ ok c
    → ChosenFrom (IsTrusted parse_str fetch trusted) parse_str selector c
      × OnlyOne parse_str selector l.found c
unfolding select_profile AllTrusted
select_profile-ChosenFrom parse_str fetch trusted failed events l selector c b e =
    let offered = all_offers (identity parse_str selector) selector l.found in
    (
      only-ChosenFrom (IsTrusted parse_str fetch trusted) parse_str selector offered c e (
          all_offers-All (IsTrusted parse_str fetch trusted) parse_str selector l.found
            (browse-AllTrusted parse_str fetch trusted failed events l b)),
      all_offers-OnlyOne c parse_str selector l.found (only-All c offered e),
    )
