-- ===== src/Tests/Browse.antt =====
-- A search that finds the device that the trust file pins.
use harness_talk.Prelude.{ℕ, ◌≡◌, refl, String_eq, true, false, some, [], ◌∷◌}
use harness_talk.Prelude.Text.{
  remove, remove_from, starts_with, trim, trim_start, byte_len, utf8_width, is_lowercase, is_digit,
}
use harness_talk.Error.{Result, ok}
use harness_talk.Validate
use harness_talk.Validate.{peer_name, bad_name, name_start, name_char}
use harness_talk.Db.{joined}
use harness_talk.Model.Words.{delivery_as_str}
use harness_talk.Catalog.{uuid, text, is_control}
use harness_talk.Catalog.Profile.{Directory, export_all}
use harness_talk.Catalog.Trust.{TrustedDevice, accept, accept_all, accept_profile}
use harness_talk.Catalog.Browse.{
  Service, Listing, resolved, listen, is_usable, first_address, reached, list_reached, list_known,
  list_device, list_named, list_services, browse, reachable,
}
use harness_talk.Catalog.Browse.Trusted.{AllTrusted, browse-AllTrusted}
use harness_talk.Catalog.Choose.{Choice, all_offers, select_profile}
use harness_talk.Catalog.Choose.Pinned.{ChosenFrom, OnlyOne, select_profile-ChosenFrom}
use harness_talk.Catalog.Browse.Trusted.{IsTrusted}
use harness_talk.Tests.Catalog.{one_id, parse_str, device, exported_directory}

abbrev service : Service
service = record {
  fullname = "desk";
  device = some one_id;
  version = some "1";
  port = 22;
  addresses = 0xC0A8_0005 ∷ [];
}

abbrev fetch : TrustedDevice → ℕ → Result Directory
fetch d ip = ok exported_directory

abbrev found_desk : Listing
found_desk = record {
  devices = record { device_id = one_id; known = true; state = reachable exported_directory } ∷ [];
  found = record { directory = exported_directory; device = device } ∷ [];
  seen = one_id ∷ [];
  rejected = 0;
}

browse_found : browse parse_str fetch (device ∷ []) false (resolved service ∷ []) ≡ ok found_desk
unfolding browse listen is_usable first_address reached list_reached list_known list_device
    list_named list_services accept accept_all accept_profile uuid Validate.uuid remove remove_from
    starts_with trim trim_start text is_control byte_len utf8_width peer_name bad_name name_start
    name_char is_lowercase is_digit joined export_all delivery_as_str
browse_found = refl

browse-AllTrusted_example : AllTrusted parse_str fetch (device ∷ []) found_desk
browse-AllTrusted_example =
    browse-AllTrusted parse_str fetch (device ∷ []) false (resolved service ∷ []) found_desk
      browse_found

abbrev chosen_bob : Choice
chosen_bob = record {
  device = device;
  profile = record { profile_id = one_id; binding_id = one_id; peer_name = "bob" };
}

bob_selected : select_profile parse_str found_desk.found "Bob" ≡ ok chosen_bob
unfolding select_profile all_offers uuid Validate.uuid remove remove_from starts_with trim
    trim_start joined export_all delivery_as_str
bob_selected = refl

select_profile-ChosenFrom_example :
    ChosenFrom (IsTrusted parse_str fetch (device ∷ [])) parse_str "Bob" chosen_bob
    × OnlyOne parse_str "Bob" found_desk.found chosen_bob
select_profile-ChosenFrom_example =
    select_profile-ChosenFrom parse_str fetch (device ∷ []) false (resolved service ∷ []) found_desk
      "Bob" chosen_bob browse_found bob_selected
