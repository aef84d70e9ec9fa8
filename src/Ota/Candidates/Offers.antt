-- ===== src/Ota/Candidates/Offers.antt =====
-- The searches of esp_matter_ota_candidates.cpp against the map of the registered candidates.
use led_orchestra.Base.{
  ℕ, suc, ◌≤◌, ◌<◌, ◌≡◌, inl, inr, refl, sym, ap, ap₂, ◌∙◌, Bool, true, false, not, ◌&&◌, ◌||◌,
  Option, none, some, List, [], ◌∷◌, arith, ltb, leb, ◌==◌, if◌then◌else◌, length, take, take_all,
  Bool-cases,
}
use mathlib.Core.Bool.{false≢true}
use led_orchestra.Platform.{EspErr, esp_err_invalid_size, esp_err_invalid_state, is_ok}
use led_orchestra.Ota.Results.{past_guard}
use led_orchestra.Ota.Candidates.{
  Candidate, FetchAction, Cache, is_ota_candidate_valid, holds, valid_at, search_from,
  search_ota_candidate, found_slot, store_candidate, local_candidate, register_local_candidate,
  ota_url_max_len, software_version_str_max_len, FetchResult, not_available, available, offer,
  fetch_handler,
}
use led_orchestra.Ota.Candidates.Slots.{
  candidate_of, next, from, from-next, from_zero, has_key, store_candidate_lem, Stored,
}

-- The index that a search answers with.
unfoldable first_valid : ℕ → ℕ → ℕ → List (Option Candidate) → Option ℕ
first_valid vendor product version [] = none
first_valid vendor product version (slot ∷ slots) =
    if holds vendor product slot
    then valid_at version 0 slot
    else next (first_valid vendor product version slots)

valid_at-from :
    (version k : ℕ) (slot : Option Candidate)
    → valid_at version k slot ≡ from k (valid_at version 0 slot)
valid_at-from version k none = refl
valid_at-from version k (some m) = ground arith

search_from_lem :
    (k v p version : ℕ) (slots : List (Option Candidate))
    → search_from k v p version slots ≡ from k (first_valid v p version slots)
unfolding search_from first_valid
search_from_lem k v p version [] = refl
search_from_lem k v p version (slot ∷ slots) = elim (Bool-cases (holds v p slot)) [
  | inl h ↦ rw h (valid_at-from version k slot)
  | inr h ↦
      rw h (search_from_lem (suc k) v p version slots ∙ from-next k (first_valid v p version slots))
]

-- What a search for a registered candidate has to answer.
unfoldable pub offer_of : ℕ → Option Candidate → FetchResult
unfolding offer
offer_of version none = not_available
offer_of version (some m) =
    if is_ota_candidate_valid m version then offer (some (some m)) else not_available

offer-next :
    (slot : Option Candidate) (slots : List (Option Candidate)) (o : Option ℕ)
    → offer (found_slot (slot ∷ slots) (next o)) ≡ offer (found_slot slots o)
offer-next slot slots none = refl
offer-next slot slots (some i) = refl

offer-first_valid :
    (v p version : ℕ) (slots : List (Option Candidate))
    → offer (found_slot slots (first_valid v p version slots))
      ≡ offer_of version (candidate_of v p slots)
unfolding first_valid candidate_of offer_of offer holds
offer-first_valid v p version [] = refl
offer-first_valid v p version (none ∷ slots) =
    offer-next none slots (first_valid v p version slots) ∙ offer-first_valid v p version slots
offer-first_valid v p version (some m ∷ slots) = elim (Bool-cases (has_key v p m)) [
  | inl h ↦ elim (Bool-cases (is_ota_candidate_valid m version)) [
    | inl t ↦ rw (h, t) refl
    | inr f ↦ rw (h, f) refl
  ]
  | inr h ↦ rw h (
      offer-next (some m) slots (first_valid v p version slots)
      ∙ offer-first_valid v p version slots)
]

-- A search answers with the candidate that is registered for the vendor and the product, where it is newer than the
-- requestor's version and applicable to it; else with nothing, whatever else is registered.
pub fetch_handler-candidate_of :
    (a : FetchAction) (slots : List (Option Candidate))
    → fetch_handler a slots
      ≡ offer_of a.software_version (candidate_of a.vendor_id a.product_id slots)
unfolding fetch_handler search_ota_candidate
fetch_handler-candidate_of a slots =
    ap (λ o. offer (found_slot slots o))
      (search_from_lem 0 a.vendor_id a.product_id a.software_version slots ∙ from_zero _)
    ∙ offer-first_valid a.vendor_id a.product_id a.software_version slots

push :
    (b : Bool) (m : Candidate) (slots : List (Option Candidate)) (a : FetchAction)
    → offer_of a.software_version
        (if b then some m else candidate_of a.vendor_id a.product_id slots)
      ≡ (if b then offer_of a.software_version (some m) else fetch_handler a slots)
push true m slots a = refl
push false m slots a = sym (fetch_handler-candidate_of a slots)

take_twice : (k : ℕ) (xs : List ℕ) → length xs ≤ k → take k (take k xs) ≡ xs
take_twice k xs h = ap (take k) (take_all k xs h) ∙ take_all k xs h

-- A candidate that is stored is what the searches for its key find; the others find what they found.
Stored-offer_of :
    (allocated : Bool) (m : Candidate) (slots : List (Option Candidate))
    (r : EspErr × List (Option Candidate)) (a : FetchAction)
    → Stored allocated m slots r
    → is_ok r.0 ≡ true
    → fetch_handler a r.1 ≡ (
        if has_key a.vendor_id a.product_id m
        then offer_of a.software_version (some m)
        else fetch_handler a slots)
Stored-offer_of allocated m slots r a (inr (h, missing, room)) ok =
    absurd (false≢true (sym (ap (λ (x : EspErr × List (Option Candidate)). is_ok x.0) h) ∙ ok))
Stored-offer_of allocated m slots r a (inl (h, room, at)) ok =
    fetch_handler-candidate_of a r.1
    ∙ ap (offer_of a.software_version) (at a.vendor_id a.product_id)
    ∙ push (has_key a.vendor_id a.product_id m) m slots a

-- What is offered of a candidate whose texts fit their buffers.
offer_of-local :
    (v p version : ℕ) (str url : List ℕ) (size lo hi current : ℕ)
    → length url < ota_url_max_len
    → length str < software_version_str_max_len
    → offer_of current (some (local_candidate v p version str url size lo hi)) ≡ (
        if ltb current version && leb current hi && leb lo current
        then available url size version str
        else not_available)
unfolding offer_of offer is_ota_candidate_valid
offer_of-local v p version str url size lo hi current fits short =
    ap₂
      (λ u w.
        if ltb current version && leb current hi && leb lo current
        then available u size version w
        else not_available)
      (take_twice 255 url (omega arith)) (take_twice 63 str (omega arith))

pub lengths_fit :
    (m n : ℕ)
    → (leb ota_url_max_len m || leb software_version_str_max_len n) ≡ false
    → (m < ota_url_max_len) × (n < software_version_str_max_len)
lengths_fit m n h = ground arith

-- After a registration that succeeds, a search for that vendor and product is answered with the given URL, size and
-- version where it is newer than the requestor's version and applicable to it, else with nothing; every
-- other search is answered as before.
pub register_local_candidate-fetch_handler :
    (allocated : Bool) (v p version : ℕ) (str url : List ℕ) (size lo hi : ℕ) (c : Cache)
    (a : FetchAction)
    → is_ok (register_local_candidate allocated v p version (some str) (some url) size lo hi c).0
      ≡ true
    → fetch_handler a
        (register_local_candidate allocated v p version (some str) (some url) size lo hi c).1.slots
      ≡ (if (v == a.vendor_id) && (p == a.product_id)
          then (if ltb a.software_version version
                && leb a.software_version hi
                && leb lo a.software_version
              then available url size version str
              else not_available)
          else fetch_handler a c.slots)
unfolding register_local_candidate
register_local_candidate-fetch_handler allocated v p version str url size lo hi c a ok =
    let m = local_candidate v p version str url size lo hi in
    let stored = store_candidate allocated m c.slots in
    let last : EspErr × Cache = (stored.0, record c { slots = stored.1 }) in
    let locked : EspErr × Cache = if not c.has_mutex then (esp_err_invalid_state, c) else last in
    let (fits, first, ok1) =
      past_guard (leb ota_url_max_len (length url) || leb software_version_str_max_len (length str))
        (esp_err_invalid_size, c) locked refl ok in
    let (mutex, second, ok2) =
      past_guard (not c.has_mutex) (esp_err_invalid_state, c) last refl ok1 in
    ap (λ (r : EspErr × Cache). fetch_handler a r.1.slots) (first ∙ second)
    ∙ Stored-offer_of allocated m c.slots stored a (store_candidate_lem allocated m c.slots) ok2
    ∙ ap (λ x. if has_key a.vendor_id a.product_id m then x else fetch_handler a c.slots)
        (offer_of-local v p version str url size lo hi a.software_version
          (lengths_fit (length url) (length str) fits).0
          (lengths_fit (length url) (length str) fits).1)
