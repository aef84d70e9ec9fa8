-- ===== src/Ota/Sender/Peers.antt =====
-- The requestor that esp_matter_ota_bdx_sender.cpp serves.
use led_orchestra.Base.{
  ℕ, zero, suc, ◌<◌, ◌≡◌, ◌⊎◌, inl, inr, refl, sym, ap, ◌∙◌, Bool, true, false, not, ◌&&◌, ◌||◌,
  Option, some, List, [], ◌++◌, arith, ◌==◌, ==→eq, ==_refl, length, take, drop, Bool-cases,
  take_all, append_nil,
}
use mathlib.Core.Path.{subst}
use mathlib.Core.Bool.{false≢true}
use led_orchestra.Platform.{EspErr, esp_ok, esp_err_invalid_state}
use led_orchestra.Ota.Candidates.{ota_url_max_len}
use led_orchestra.Ota.Sender.{
  Sender, Effect, initial_sender, reset, is_value, initialize_transfer, assign_peer,
  set_ota_image_url,
}

-- The peer of the sender is the requestor.
abbrev pub Serves : ℕ → ℕ → Sender → Type 0
Serves fabric node s = (s.fabric_index ≡ some fabric) × (s.node_id ≡ some node)

-- An initialised sender has a peer; else it has no URL.
pub record HasPeer (s : Sender) : Type 0 where
  pub peer : s.initialized ≡ true → (fabric : ℕ) × (node : ℕ) × Serves fabric node s
  pub no_url : s.initialized ≡ false → s.ota_image_url ≡ []

other_peer : (a b : Bool) → (a && b) ≡ false → (not a || not b) ≡ true
other_peer a b h = ground arith

drop_nil : (xs : List ℕ) (k : ℕ) → xs ++ drop k [] ≡ xs
drop_nil xs zero = append_nil xs
drop_nil xs (suc k) = append_nil xs

free :
    (fabric node : ℕ) (s : Sender)
    → s.initialized ≡ false
    → initialize_transfer fabric node s ≡ (esp_ok, [], assign_peer fabric node s)
unfolding initialize_transfer
free fabric node s h = rw h refl

served :
    (fabric node : ℕ) (s : Sender)
    → s.initialized ≡ true
    → Serves fabric node s
    → initialize_transfer fabric node s
      ≡ (esp_ok, (reset s).0, assign_peer fabric node initial_sender)
unfolding initialize_transfer reset
served fabric node s h (f, n) = rw (h, f, n, ==_refl fabric, ==_refl node) refl

taken :
    (fabric node f n : ℕ) (s : Sender)
    → s.initialized ≡ true
    → Serves f n s
    → ((f == fabric) && (n == node)) ≡ false
    → initialize_transfer fabric node s ≡ (esp_err_invalid_state, [], s)
unfolding initialize_transfer
taken fabric node f n s h (i, j) other =
    rw (h, i, j, other, other_peer (f == fabric) (n == node) other) refl

set_empty_url :
    (url : List ℕ) (s : Sender)
    → length url < ota_url_max_len
    → s.ota_image_url ≡ []
    → (set_ota_image_url url s).ota_image_url ≡ url
unfolding set_ota_image_url
set_empty_url url s fits h =
    ap (λ old. take ota_url_max_len url ++ drop (length (take ota_url_max_len url)) old) h
    ∙ drop_nil (take ota_url_max_len url) (length (take ota_url_max_len url))
    ∙ take_all ota_url_max_len url (omega arith)

same_value : (m n : ℕ) → ◌≡◌ {A = Option ℕ} (some m) (some n) → (m == n) ≡ true
same_value m n h = ap (λ o. is_value o n) h ∙ ==_refl n

both : (a b : Bool) → a ≡ true → b ≡ true → (a && b) ≡ true
both a b h k = ground arith

not_same :
    (f n fabric node : ℕ) (s : Sender)
    → Serves f n s
    → Serves fabric node s
    → ((f == fabric) && (n == node)) ≡ false
    → ⊥
not_same f n fabric node s serves same o = false≢true (
    sym o
    ∙ both (f == fabric) (n == node) (same_value f fabric (sym serves.0 ∙ same.0))
        (same_value n node (sym serves.1 ∙ same.1)))

-- What `InitializeTransfer` and then `SetOtaImageUrl` do.
abbrev pub Initialized : ℕ → ℕ → List ℕ → Sender → EspErr × List Effect × Sender → Type 0
Initialized fabric node url s r =
    ((r.0 ≡ esp_ok)
      × ((s.initialized ≡ false) ⊎ Serves fabric node s)
      × Serves fabric node r.2
      × ((set_ota_image_url url r.2).ota_image_url ≡ url))
    ⊎ ((s.initialized ≡ true) × (¬ Serves fabric node s) × (r ≡ (esp_err_invalid_state, [], s)))

-- A sender that is free, or that serves this requestor already, serves it from then on, with the URL
-- that is set next and nothing of an earlier one; one that serves another requestor answers that it is in
-- use, and is left as it is. Either a peer is known or no URL is set, and the URL fits its buffer.
pub initialize_transfer-Initialized :
    (fabric node : ℕ) (url : List ℕ) (s : Sender)
    → length url < ota_url_max_len
    → HasPeer s
    → Initialized fabric node url s (initialize_transfer fabric node s)
initialize_transfer-Initialized fabric node url s fits i = elim (Bool-cases s.initialized) [
  | inr h ↦
      subst (Initialized fabric node url s) (sym (free fabric node s h))
        (inl (refl, inl h, (refl, refl), set_empty_url url _ fits (i.no_url h)))
  | inl h ↦
      let (f, n, serves) = i.peer h in
      elim (Bool-cases ((f == fabric) && (n == node))) [
        | inl t ↦
            let same : Serves fabric node s = (
              serves.0 ∙ ap some (==→eq f fabric (ground arith)),
              serves.1 ∙ ap some (==→eq n node (ground arith)),
            ) in
            subst (Initialized fabric node url s) (sym (served fabric node s h same))
              (inl (refl, inr same, (refl, refl), set_empty_url url _ fits refl))
        | inr o ↦ subst (Initialized fabric node url s) (sym (taken fabric node f n s h serves o)) (
            inr (
              h,
              (λ (same : Serves fabric node s). not_same f n fabric node s serves same o),
              refl,
            ))
      ]
]
