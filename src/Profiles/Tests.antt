-- ===== src/Profiles/Tests.antt =====
-- Runs of the profile checks of src/domain on concrete profiles.
use zarya.Prelude.{◌≡◌, refl, ◌↔◌, ◌≤ℤ◌, pos, codes, text_eq, trimmed, to_lower, eq_ignore_case}
use zarya.Profiles.Profile.{
  Profile, blank, create_default, create_vless_reality_default, compute_source_key, is_valid,
  is_security_reality, is_security_tls, effective_uuid, effective_password, effective_method,
  effective_server_name, has_unsupported_feature,
}
use zarya.Profiles.Validation.{
  accepted, refused, reality_public_key, tls_server_name, validate_profile_for_dialog,
  normalized_network, is_hex_short_id,
}
use zarya.Profiles.Validation.Rules.{IsFilled, Meets, validate-accepted_iff}

reads : Unit {0}
unfolding text_eq trimmed to_lower eq_ignore_case is_valid is_security_reality is_security_tls
    effective_uuid effective_password effective_method effective_server_name has_unsupported_feature
reads = tt

source_key :
    compute_source_key (record blank { address = codes " a.b "; uuid_password = codes "u" })
    ≡ codes "VLESS|a.b|443|u||"
unfolding compute_source_key reads
source_key = refl

-- A place marker in the address is filled by the port.
marker_in_address :
    compute_source_key (record blank { address = codes "fe80::1%1" })
    ≡ codes "VLESS|fe80::1443||||%6"
unfolding compute_source_key reads
marker_in_address = refl

-- Neither of the profiles that the program makes passes its own check before it is edited.
fresh_profiles :
    (validate_profile_for_dialog (create_default (codes "i") (codes "u")) ≡ refused tls_server_name)
    × (validate_profile_for_dialog (create_vless_reality_default (codes "i") (codes "u"))
        ≡ refused reality_public_key)
unfolding validate_profile_for_dialog create_default create_vless_reality_default reads
fresh_profiles = (refl, refl)

abbrev complete : Profile
complete = record (create_vless_reality_default (codes "i") (codes "u")) {
  public_key = codes "k";
  sni = codes "example.com";
  short_id = codes "0a1B";
}

complete_accepted : validate_profile_for_dialog complete ≡ accepted
unfolding validate_profile_for_dialog create_vless_reality_default normalized_network
    is_hex_short_id reads
complete_accepted = refl

validate-accepted_iff_example : (validate_profile_for_dialog complete ≡ accepted) ↔ (
    IsFilled (trimmed complete.name)
    × IsFilled (trimmed complete.address)
    × (pos 1 ≤ℤ complete.port)
    × (complete.port ≤ℤ pos 65535)
    × Meets complete.protocol complete)
validate-accepted_iff_example = validate-accepted_iff complete
