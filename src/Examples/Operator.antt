-- ===== src/Examples/Operator.antt =====
-- The theorems on the commands of the operator at concrete inputs.
use led_orchestra.Base.{
  ℕ, suc, ◌<◌, ◌≡◌, refl, true, false, Option, none, some, List, [], ◌∷◌, arith, length, get_elem?,
}
use mathlib.Core.Path.{subst}
use led_orchestra.Libc.{strtoull, digit_value, skip_spaces, read_sign, base_of, read_digits}
use led_orchestra.Platform.{esp_ok, is_ok}
use led_orchestra.Ota.Candidates.{
  register_local_candidate, store_candidate, find_candidate_slot, find_slot_from, holds,
}
use led_orchestra.Ota.Access.{
  AclEntry, Grant, ChipError, no_error, AccessControl, AccessLaws, entry_of,
  ensure_ota_acl_for_node, already_allowed, any_from,
}
use led_orchestra.Ota.Access.Grants.{MayCall, ensure_ota_acl_for_node-Granted}
use led_orchestra.Ota.Commands.{parse_u32, LocalOtaCandidate, ota_set_image_handler}
use led_orchestra.Ota.Commands.Images.{Offers, ota_set_image_handler-Offers}
use led_orchestra.Examples.Ota.{url, two, empty_cache, old_lamp}

abbrev nothing_staged : LocalOtaCandidate
nothing_staged = record {
  is_set = false;
  uri = [];
  software_version = 0;
  version_string = [];
  size = 0;
  vendor_id = 0;
  product_id = 0;
}

-- "900", "65521" and "1".
abbrev size_text : List ℕ
size_text = 57 ∷ (48 ∷ (48 ∷ []))

abbrev vendor_text : List ℕ
vendor_text = 54 ∷ (53 ∷ (53 ∷ (50 ∷ (49 ∷ []))))

abbrev one : List ℕ
one = 49 ∷ []

abbrev arguments : List (List ℕ)
arguments = url ∷ (two ∷ (two ∷ (size_text ∷ (vendor_text ∷ (one ∷ [])))))

staged_ok : is_ok (ota_set_image_handler true arguments nothing_staged empty_cache).0 ≡ true
unfolding ota_set_image_handler parse_u32 strtoull digit_value skip_spaces read_sign base_of
    read_digits register_local_candidate store_candidate find_candidate_slot find_slot_from holds
staged_ok = refl

read_two : parse_u32 two ≡ some 2
unfolding parse_u32 strtoull digit_value skip_spaces read_sign base_of read_digits
read_two = refl

read_size : parse_u32 size_text ≡ some 900
unfolding parse_u32 strtoull digit_value skip_spaces read_sign base_of read_digits
read_size = refl

read_vendor : parse_u32 vendor_text ≡ some 65521
unfolding parse_u32 strtoull digit_value skip_spaces read_sign base_of read_digits
read_vendor = refl

read_one : parse_u32 one ≡ some 1
unfolding parse_u32 strtoull digit_value skip_spaces read_sign base_of read_digits
read_one = refl

ota_set_image_handler-Offers_example :
    Offers url two 2 900 65521 1 old_lamp empty_cache
      (ota_set_image_handler true arguments nothing_staged empty_cache)
ota_set_image_handler-Offers_example =
    ota_set_image_handler-Offers true url two two size_text vendor_text one 2 900 65521 1
      nothing_staged empty_cache old_lamp (omega arith) read_two read_size read_vendor read_one
      staged_ok

abbrev reading : Option Grant → Option AclEntry
reading none = none
reading (some g) = some (entry_of g)

-- An access control with one list of entries.
abbrev list_acl : AccessControl
list_acl = record {
  Entries = List Grant;
  entry_count = λ entries fabric. some (length entries);
  read_entry = λ entries fabric index. reading (get_elem? entries index);
  add_entry = λ entries fabric g. (no_error, g ∷ entries);
}

list_acl-AccessLaws : AccessLaws list_acl
list_acl-AccessLaws = record {
  created = λ before after fabric g h.
      subst
        (λ (r : ChipError × List Grant).
          (count : ℕ) × (index : ℕ) × (list_acl.entry_count r.1 fabric ≡ some count)
          × (index < count)
          × (list_acl.read_entry r.1 fabric index ≡ some (entry_of g)))
        h (suc (length before), 0, refl, omega arith, refl);
}

granted_ok : is_ok (ensure_ota_acl_for_node list_acl no_error 2 41 0 1 42 []).0 ≡ true
unfolding ensure_ota_acl_for_node already_allowed any_from
granted_ok = refl

ensure_ota_acl_for_node-Granted_example :
    let after = (ensure_ota_acl_for_node list_acl no_error 2 41 0 1 42 []).1 in
    MayCall list_acl 2 41 1 42 after
    × (ensure_ota_acl_for_node list_acl ChipError.other_failure 2 41 0 1 42 after ≡ (esp_ok, after))
ensure_ota_acl_for_node-Granted_example =
    ensure_ota_acl_for_node-Granted list_acl list_acl-AccessLaws no_error ChipError.other_failure 2
      41 0 1 42 [] granted_ok
