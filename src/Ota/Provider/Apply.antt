-- ===== src/Ota/Provider/Apply.antt =====
-- The answer to ApplyUpdateRequest in esp_matter_ota_provider.cpp.
use led_orchestra.Base.{
  ℕ, ◌≡◌, ◌⊎◌, ◌<◌, ◌≤◌, inl, inr, refl, sym, ap, ap₂, ◌∙◌, true, false, Option, none, some, List,
  [], ◌∷◌, arith, length, Bool-cases, ltb,
}
use mathlib.Core.Bool.{false≢true}
use led_orchestra.Ota.Provider.{RequestorEntry, Provider, find_entry, Command, proceed}
use led_orchestra.Ota.Provider.Handlers.{
  Answer, crash, status, invalid_command, apply_update_response, data_equal, token_matches,
  matches_entry, print_overruns, printed_bytes, handle_apply_update_request,
}

data_equal-eq : (xs ys : List ℕ) → data_equal xs ys ≡ true → xs ≡ ys
unfolding data_equal
data_equal-eq [] [] h = refl
data_equal-eq [] (y ∷ ys) h = cc
data_equal-eq (x ∷ xs) [] h = cc
data_equal-eq (x ∷ xs) (y ∷ ys) h =
    ap₂ (λ z zs. z ∷ zs) (ground arith) (data_equal-eq xs ys (ground arith))

-- The bytes that are printed of a token.
overruns_short : (size : ℕ) → print_overruns size ≡ ltb size 2
unfolding print_overruns printed_bytes
overruns_short size = ground arith

data_equal_refl : (xs : List ℕ) → data_equal xs xs ≡ true
unfolding data_equal
data_equal_refl [] = refl
data_equal_refl (x ∷ xs) = ground (arith, data_equal_refl xs)

-- The token and the version are those of the entry of the node.
abbrev pub Matches : List ℕ → ℕ → Option RequestorEntry → Type 0
Matches token version found =
    (e : RequestorEntry) × (found ≡ some e)
    × (token ≡ e.update_token)
    × (version ≡ e.software_version)

token_matches_lem :
    (token : List ℕ) (version : ℕ) (e : RequestorEntry)
    → token ≡ e.update_token
    → version ≡ e.software_version
    → token_matches token version e ≡ true
token_matches_lem token version e t v =
    ap₂ (λ k w. token_matches k w e) t v ∙ ground (arith, data_equal_refl e.update_token)

matches_entry-Matches :
    (token : List ℕ) (version : ℕ) (found : Option RequestorEntry)
    → ((matches_entry token version found ≡ true) × Matches token version found)
      ⊎ ((matches_entry token version found ≡ false) × ¬ Matches token version found)
matches_entry-Matches token version none = inr (refl, λ (e, h, t, v). cc)
matches_entry-Matches token version (some e) = elim (Bool-cases (token_matches token version e)) [
  | inl t ↦ inl (t, (e, refl, data_equal-eq token e.update_token (ground arith), ground arith))
  | inr f ↦ inr (
    f,
    λ (d, h, t, v).
        false≢true
          (sym f ∙ ap (matches_entry token version) h ∙ token_matches_lem token version d t v),
  )
]

-- The three ends of an ApplyUpdateRequest.
abbrev pub Applied : Command → List ℕ → ℕ → Provider → Answer × Provider → Type 0
Applied c token version p r =
    ((length token < 2) × (r ≡ (crash, p)))
    ⊎ (((2 ≤ length token)
          × Matches token version (find_entry c.peer p.requestors)
          × (r ≡ (
            apply_update_response p.update_action p.delayed_apply_action_time,
            record p { delayed_apply_action_time = 0; update_action = proceed },
          )))
        ⊎ ((2 ≤ length token)
            × (¬ Matches token version (find_entry c.peer p.requestors))
            × (r ≡ (status invalid_command, p))))

-- ApplyUpdateRequest is answered with the configured action and delay exactly where the token and the version
-- are those of the entry of the node, and then both are reset; else with an invalid command and no change.
-- A token of less than two bytes makes the print of the token leave its buffer.
pub handle_apply_update_request-Applied :
    (c : Command) (token : List ℕ) (version : ℕ) (p : Provider)
    → Applied c token version p (handle_apply_update_request (some c) token version p)
unfolding handle_apply_update_request
handle_apply_update_request-Applied c token version p =
    elim (Bool-cases (print_overruns (length token))) [
      | inl o ↦ inl (ground (arith, overruns_short (length token)), rw o refl)
      | inr o ↦ inr (elim (matches_entry-Matches token version (find_entry c.peer p.requestors)) [
        | inl (t, m) ↦ inl (ground (arith, overruns_short (length token)), m, rw (o, t) refl)
        | inr (f, m) ↦ inr (ground (arith, overruns_short (length token)), m, rw (o, f) refl)
      ])
    ]
