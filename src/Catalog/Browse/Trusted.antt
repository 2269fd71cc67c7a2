-- ===== src/Catalog/Browse/Trusted.antt =====
-- What a search of the network may answer (src/catalog/discover/mdns.rs).
use harness_talk.Prelude.{
  ℕ, ◌≡◌, refl, sym, String, String_eq, Bool, true, false, not, Option, none, some, List, [], ◌∷◌,
  ◌==◌, All, find?, nat_eq, eq_iff, if◌then◌else◌,
}
use harness_talk.Prelude.Find.{find?-fits}
use mathlib.Core.Path.{subst}
use harness_talk.Prelude.Select.{All-append}
use harness_talk.Error.{Result, ok, err, code}
use harness_talk.Error.Steps.{both, ok_step, ok_same}
use harness_talk.Db.{ok_or}
use harness_talk.Catalog.Profile.{Directory}
use harness_talk.Catalog.Trust.{TrustedDevice, accept}
use harness_talk.Catalog.Browse.{
  Service, Event, Listing, Found, first_address, reached, list_reached, list_known, list_device,
  list_named, list_services, listen, nothing_heard, browse, nothing_listed, rejecting,
}

module _ (parse_str : List ℕ → Option String) (fetch : TrustedDevice → ℕ → Result Directory)
    (trusted : List TrustedDevice) where
  -- A directory that is found was accepted from a device that the trust file pins.
  abbrev pub IsTrusted : Found → Type 0
  IsTrusted f =
      (accept parse_str f.device f.directory ≡ ok tt)
      × (find? (λ d. d.device_id == f.device.device_id) trusted ≡ some f.device)

  unfoldable pub AllTrusted : Listing → Type 0
  AllTrusted l = All IsTrusted l.found

  pinned :
      (device : TrustedDevice) (id : String)
      → find? (λ d. d.device_id == id) trusted ≡ some device
      → find? (λ d. d.device_id == device.device_id) trusted ≡ some device
  pinned device id e =
      subst (λ i. find? (λ d. d.device_id == i) trusted ≡ some device)
        (sym
          ((eq_iff device.device_id id).0 (find?-fits (λ d. d.device_id == id) trusted device e)))
        e

  reached-accepted :
      (device : TrustedDevice) (s : Service) (directory : Directory)
      → reached parse_str fetch device s ≡ ok directory
      → accept parse_str device directory ≡ ok tt
  unfolding reached
  reached-accepted device s directory h =
      let (ip, _, h) = ok_step (ok_or (first_address s.addresses) _) _ directory h in
      let (d, _, h) = ok_step (fetch device ip) _ directory h in
      let (a, h) = both (accept parse_str device d) _ directory h in
      subst (λ x. accept parse_str device x ≡ ok tt) (ok_same h) a

  reached-AllTrusted :
      (id : String) (device : TrustedDevice) (r : Result Directory) (l : Listing)
      → ((directory : Directory)
          → r ≡ ok directory
          → IsTrusted (record { directory = directory; device = device }))
      → AllTrusted l
      → AllTrusted (list_reached parse_str fetch id device r l)
  unfolding list_reached AllTrusted
  reached-AllTrusted id device (ok directory) l t h =
      All-append IsTrusted l.found _ h (t directory refl, tt)
  reached-AllTrusted id device (err e) l t h = h

  if-AllTrusted :
      (b : Bool) (x y : Listing) → AllTrusted x → AllTrusted y → AllTrusted (if b then x else y)
  if-AllTrusted true x y h k = h
  if-AllTrusted false x y h k = k

  device-AllTrusted :
      (id : String) (o : Option TrustedDevice) (s : Service) (l : Listing)
      → find? (λ d. d.device_id == id) trusted ≡ o
      → AllTrusted l
      → AllTrusted (list_device parse_str fetch id o s l)
  unfolding list_device list_known AllTrusted
  device-AllTrusted id none s l e h = h
  device-AllTrusted id (some device) s l e h =
      if-AllTrusted (not (nat_eq s.port device.ssh_port)) _ _ h (
        reached-AllTrusted id device (reached parse_str fetch device s) l
          (λ d r. (reached-accepted device s d r, pinned device id e)) h)

  rejecting-AllTrusted : (l : Listing) → AllTrusted l → AllTrusted (rejecting l)
  unfolding AllTrusted
  rejecting-AllTrusted l h = h

  nothing-AllTrusted : AllTrusted nothing_listed
  unfolding AllTrusted
  nothing-AllTrusted = tt

  named-AllTrusted :
      (o : Option String) (s : Service) (l : Listing)
      → AllTrusted l
      → AllTrusted (list_named parse_str fetch trusted o s l)
  unfolding list_named
  named-AllTrusted none s l h = rejecting-AllTrusted l h
  named-AllTrusted (some id) s l h =
      if-AllTrusted _ _ _ (rejecting-AllTrusted l h)
        (if-AllTrusted _ _ _ h (device-AllTrusted id _ s l refl h))

  services-AllTrusted :
      (services : List Service) (l : Listing)
      → AllTrusted l
      → AllTrusted (list_services parse_str fetch trusted services l)
  unfolding list_services
  services-AllTrusted [] l h = h
  services-AllTrusted (s ∷ services) l h =
      services-AllTrusted services _ (named-AllTrusted s.device s l h)

  unless_lost :
      (b : Bool) (x l : Listing)
      → (if b then err (code "catalog_mdns_unavailable") else ok x) ≡ ok l
      → AllTrusted x
      → AllTrusted l
  unless_lost true x l h t = cc
  unless_lost false x l h t = subst AllTrusted (ok_same h) t

  -- Whatever is advertised on a network, and whatever is fetched from the addresses: each directory
  -- that a search finds passed accept for a device that the trust file has, and that device is the
  -- first one with its ID.
  pub browse-AllTrusted :
      (failed : Bool) (events : List Event) (l : Listing)
      → browse parse_str fetch trusted failed events ≡ ok l
      → AllTrusted l
  unfolding browse
  browse-AllTrusted failed events l h =
      unless_lost _ _ l h (
        services-AllTrusted (listen events nothing_heard).services nothing_listed
          nothing-AllTrusted)
