-- ===== src/Ota/Candidates/Slots.antt =====
-- The slots of esp_matter_ota_candidates.cpp as a finite map from vendor and product to a candidate.
use led_orchestra.Base.{
  ℕ, zero, suc, ◌+◌, ◌≡◌, ◌⊎◌, inl, inr, refl, sym, ap, ap₂, ◌∙◌, Bool, true, false, ◌&&◌, Option,
  none, some, List, [], ◌∷◌, arith, ◌==◌, if◌then◌else◌, set, get_elem?, Bool-cases, Option-cases,
}
use mathlib.Core.Path.{subst}
use led_orchestra.Platform.{EspErr, esp_ok, esp_err_no_mem}
use led_orchestra.Ota.Candidates.{
  Candidate, holds, note_empty, find_slot_from, find_candidate_slot, has_room, store_candidate,
}

-- The candidate registered for a vendor and a product.
unfoldable pub candidate_of : ℕ → ℕ → List (Option Candidate) → Option Candidate
candidate_of vendor product [] = none
candidate_of vendor product (slot ∷ slots) =
    if holds vendor product slot then slot else candidate_of vendor product slots

abbrev pub next : Option ℕ → Option ℕ
next none = none
next (some i) = some (suc i)

-- The index of the first slot that holds the key, and of the first free one.
unfoldable pub first_held : ℕ → ℕ → List (Option Candidate) → Option ℕ
first_held vendor product [] = none
first_held vendor product (slot ∷ slots) =
    if holds vendor product slot then some 0 else next (first_held vendor product slots)

unfoldable pub first_free : List (Option Candidate) → Option ℕ
first_free [] = none
first_free (none ∷ slots) = some 0
first_free (some m ∷ slots) = next (first_free slots)

abbrev or_else : Option ℕ → Option ℕ → Option ℕ
or_else none o = o
or_else (some i) o = some i

abbrev pub from : ℕ → Option ℕ → Option ℕ
from k none = none
from k (some i) = some (k + i)

pub from-next : (k : ℕ) (o : Option ℕ) → from (suc k) o ≡ from k (next o)
from-next k none = refl
from-next k (some i) = ap some (omega arith)

note_empty-first_free :
    (k : ℕ) (e : Option ℕ) (slot : Option Candidate) (slots : List (Option Candidate))
    → or_else (note_empty k e slot) (from (suc k) (first_free slots))
      ≡ or_else e (from k (first_free (slot ∷ slots)))
unfolding first_free
note_empty-first_free k none none slots = ap some (omega arith)
note_empty-first_free k none (some m) slots = from-next k (first_free slots)
note_empty-first_free k (some i) slot slots = refl

-- The loop answers with the slot that holds the key, else with the first free one.
find_slot_from_lem :
    (k : ℕ) (e : Option ℕ) (v p : ℕ) (slots : List (Option Candidate))
    → find_slot_from k e v p slots
      ≡ or_else (from k (first_held v p slots)) (or_else e (from k (first_free slots)))
unfolding find_slot_from first_held first_free
find_slot_from_lem k none v p [] = refl
find_slot_from_lem k (some i) v p [] = refl
find_slot_from_lem k e v p (slot ∷ slots) = elim (Bool-cases (holds v p slot)) [
  | inl h ↦ rw h (ap some (omega arith))
  | inr h ↦ rw h (
      find_slot_from_lem (suc k) (note_empty k e slot) v p slots
      ∙ ap₂ or_else (from-next k (first_held v p slots)) (note_empty-first_free k e slot slots))
]

pub from_zero : (o : Option ℕ) → from 0 o ≡ o
from_zero none = refl
from_zero (some i) = ap some (omega arith)

find_candidate_slot_lem :
    (v p : ℕ) (slots : List (Option Candidate))
    → find_candidate_slot v p slots ≡ or_else (first_held v p slots) (first_free slots)
unfolding find_candidate_slot
find_candidate_slot_lem v p slots =
    find_slot_from_lem 0 none v p slots
    ∙ ap₂ or_else (from_zero (first_held v p slots)) (from_zero (first_free slots))

-- The key of a candidate.
abbrev pub has_key : ℕ → ℕ → Candidate → Bool
has_key v p m = (m.vendor_id == v) && (m.product_id == p)

held-candidate_of :
    (v p : ℕ) (slots : List (Option Candidate))
    → ((first_held v p slots ≡ none) × (candidate_of v p slots ≡ none))
      ⊎ ((i : ℕ) × (m : Candidate) × (first_held v p slots ≡ some i)
          × (candidate_of v p slots ≡ some m)
          × (get_elem? slots i ≡ some (some m))
          × (has_key v p m ≡ true))
unfolding first_held candidate_of holds
held-candidate_of v p [] = inl (refl, refl)
held-candidate_of v p (none ∷ slots) = elim (held-candidate_of v p slots) [
  | inl (a, b) ↦ inl (rw a, b)
  | inr (i, m, a, b, c, d) ↦ inr (suc i, m, rw a, b, c, d)
]
held-candidate_of v p (some m ∷ slots) = elim (Bool-cases (has_key v p m)) [
  | inl h ↦ inr (0, m, rw h, rw h, refl, h)
  | inr h ↦ elim (held-candidate_of v p slots) [
    | inl (a, b) ↦ inl (rw (h, a), rw h b)
    | inr (i, n, a, b, c, d) ↦ inr (suc i, n, rw (h, a), rw h b, c, d)
  ]
]

next-suc : (o : Option ℕ) (i : ℕ) → next o ≡ some (suc i) → o ≡ some i
next-suc none i h = cc
next-suc (some j) i h = ground arith

next_zero : (o : Option ℕ) → next o ≡ some 0 → ⊥
next_zero none h = cc
next_zero (some j) h = ground arith

next-none : (o : Option ℕ) → next o ≡ none → o ≡ none
next-none none h = refl
next-none (some j) h = cc

-- Writing the candidate over the slot that holds its key.
set_held :
    (m : Candidate) (i v p : ℕ) (slots : List (Option Candidate))
    → first_held m.vendor_id m.product_id slots ≡ some i
    → candidate_of v p (set slots i (some m))
      ≡ (if has_key v p m then some m else candidate_of v p slots)
unfolding first_held candidate_of holds
set_held m i v p [] h = cc
set_held m zero v p (none ∷ slots) h = refl
set_held m (suc i) v p (none ∷ slots) h = set_held m i v p slots (next-suc _ i h)
set_held m zero v p (some n ∷ slots) h =
    ground (arith, next_zero (first_held m.vendor_id m.product_id slots))
set_held m (suc i) v p (some n ∷ slots) h =
    ground (arith, set_held m i v p slots, next-suc (first_held m.vendor_id m.product_id slots) i)

-- Writing it into the first free slot, where no slot holds its key.
set_free :
    (m : Candidate) (i v p : ℕ) (slots : List (Option Candidate))
    → first_held m.vendor_id m.product_id slots ≡ none
    → first_free slots ≡ some i
    → candidate_of v p (set slots i (some m))
      ≡ (if has_key v p m then some m else candidate_of v p slots)
unfolding first_held first_free candidate_of holds
set_free m i v p [] h e = cc
set_free m zero v p (none ∷ slots) h e = refl
set_free m (suc i) v p (none ∷ slots) h e = absurd (ground arith)
set_free m zero v p (some n ∷ slots) h e = absurd (next_zero (first_free slots) e)
set_free m (suc i) v p (some n ∷ slots) h e = ground (
  arith,
  set_free m i v p slots,
  next-suc (first_free slots) i,
  next-none (first_held m.vendor_id m.product_id slots),
)

-- The first free slot is free.
first_free-get :
    (i : ℕ) (slots : List (Option Candidate))
    → first_free slots ≡ some i
    → get_elem? slots i ≡ some none
unfolding first_free
first_free-get i [] h = cc
first_free-get zero (none ∷ slots) h = refl
first_free-get (suc i) (none ∷ slots) h = absurd (ground arith)
first_free-get zero (some n ∷ slots) h = absurd (next_zero (first_free slots) h)
first_free-get (suc i) (some n ∷ slots) h = first_free-get i slots (next-suc (first_free slots) i h)

store_candidate-found :
    (allocated : Bool) (m : Candidate) (slots : List (Option Candidate)) (i : ℕ)
    (slot : Option Candidate)
    → find_candidate_slot m.vendor_id m.product_id slots ≡ some i
    → get_elem? slots i ≡ some slot
    → store_candidate allocated m slots ≡ (
        if has_room allocated (some slot)
        then (esp_ok, set slots i (some m))
        else (esp_err_no_mem, slots))
unfolding store_candidate
store_candidate-found allocated m slots i slot e at = rw (e, store_candidate, at) refl

store_candidate-missed :
    (allocated : Bool) (m : Candidate) (slots : List (Option Candidate))
    → find_candidate_slot m.vendor_id m.product_id slots ≡ none
    → store_candidate allocated m slots ≡ (esp_err_no_mem, slots)
unfolding store_candidate
store_candidate-missed allocated m slots e = rw (e, store_candidate) refl

-- The candidate is stored, or nothing changes since there is no slot for it or no memory.
abbrev pub Stored :
    Bool → Candidate → List (Option Candidate) → EspErr × List (Option Candidate) → Type 0
Stored allocated m slots r =
    ((r.0 ≡ esp_ok)
      × (((n : Candidate) × (candidate_of m.vendor_id m.product_id slots ≡ some n))
          ⊎ ((allocated ≡ true) × ((i : ℕ) × (first_free slots ≡ some i))))
      × ((v p : ℕ)
          → candidate_of v p r.1 ≡ (if has_key v p m then some m else candidate_of v p slots)))
    ⊎ ((r ≡ (esp_err_no_mem, slots))
        × (candidate_of m.vendor_id m.product_id slots ≡ none)
        × ((allocated ≡ false) ⊎ (first_free slots ≡ none)))

first_free-Stored :
    (allocated : Bool) (m : Candidate) (slots : List (Option Candidate)) (i : ℕ)
    → first_held m.vendor_id m.product_id slots ≡ none
    → candidate_of m.vendor_id m.product_id slots ≡ none
    → first_free slots ≡ some i
    → Stored allocated m slots
        (if allocated then (esp_ok, set slots i (some m)) else (esp_err_no_mem, slots))
first_free-Stored true m slots i held found free =
    inl (refl, inr (refl, (i, free)), λ v p. set_free m i v p slots held free)
first_free-Stored false m slots i held found free = inr (refl, found, inl refl)

-- Storing succeeds if the key is held already, or a slot is free and the allocation succeeds; then the
-- map has the candidate under its key, and is as before elsewhere. Else nothing changes.
pub store_candidate_lem :
    (allocated : Bool) (m : Candidate) (slots : List (Option Candidate))
    → Stored allocated m slots (store_candidate allocated m slots)
store_candidate_lem allocated m slots =
    let slot_of = find_candidate_slot_lem m.vendor_id m.product_id slots in
    elim (held-candidate_of m.vendor_id m.product_id slots) [
      | inr (i, n, held, found, at, key) ↦
          subst (Stored allocated m slots)
            (sym (
              store_candidate-found allocated m slots i (some n)
                (slot_of ∙ ap (λ o. or_else o (first_free slots)) held) at))
            (inl (refl, inl (n, found), λ v p. set_held m i v p slots held))
      | inl (held, found) ↦ elim (Option-cases (first_free slots)) [
        | inl full ↦
            subst (Stored allocated m slots)
              (sym (store_candidate-missed allocated m slots (slot_of ∙ ap₂ or_else held full)))
              (inr (refl, found, inr full))
        | inr (i, free) ↦
            subst (Stored allocated m slots)
              (sym (
                store_candidate-found allocated m slots i none (slot_of ∙ ap₂ or_else held free)
                  (first_free-get i slots free)))
              (first_free-Stored allocated m slots i held found free)
      ]
    ]
