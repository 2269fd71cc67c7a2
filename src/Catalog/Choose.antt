-- ===== src/Catalog/Choose.antt =====
-- `select_profile` of src/catalog/discover/mod.rs: the one profile that a selector names.
--
-- A `Found` has no link here, and neither has the choice.
pub mod Pinned
use harness_talk.Prelude.{
  ℕ, String, String_eq, Bool, true, false, not, ◌&&◌, Option, List, [], ◌∷◌, ◌++◌, ◌==◌, select,
  map, if◌then◌else◌,
}
use harness_talk.Error.{Result, ok, err, code}
use harness_talk.Catalog.{uuid}
use harness_talk.Catalog.Profile.{Profile}
use harness_talk.Catalog.Trust.{TrustedDevice}
use harness_talk.Catalog.Binding.{ProfileBinding}
use harness_talk.Catalog.Browse.{Found, is_err}

pub record Choice : Type 0 where
  pub device : TrustedDevice
  pub profile : ProfileBinding

abbrev pub wanted : Bool → String → Profile → Bool
wanted identity_only selector p =
    (if identity_only then p.profile_id == selector else p.display_name == selector)
    && (p.binding_state == "current")

abbrev pub choice : TrustedDevice → Profile → Choice
choice d p = record {
  device = d;
  profile = record {
    profile_id = p.profile_id;
    binding_id = p.binding_id;
    peer_name = p.peer_name;
  };
}

abbrev pub offers : Bool → String → Found → List Choice
offers identity_only selector f =
    map (choice f.device) (select (wanted identity_only selector) f.directory.profiles)

unfoldable pub all_offers : Bool → String → List Found → List Choice
all_offers identity_only selector [] = []
all_offers identity_only selector (f ∷ fs) =
    offers identity_only selector f ++ all_offers identity_only selector fs

abbrev pub only : List Choice → Result Choice
only [] = err (code "catalog_profile_unavailable")
only (c ∷ []) = ok c
only (c ∷ d ∷ cs) = err (code "catalog_ambiguous_profile")

unfoldable pub select_profile : (List ℕ → Option String) → List Found → String → Result Choice
unfolding all_offers
select_profile parse_str found selector =
    only (all_offers (not (is_err (uuid parse_str selector))) selector found)
