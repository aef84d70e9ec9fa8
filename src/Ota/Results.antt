-- ===== src/Ota/Results.antt =====
-- Guards of the functions of the controller that return an `esp_err_t`.
use led_orchestra.Base.{◌≡◌, refl, sym, ◌∙◌, Bool, true, false, if◌then◌else◌}
use mathlib.Core.Bool.{false≢true}
use led_orchestra.Platform.{EspErr, is_ok}

-- A call that succeeds went past a guard that fails.
pub past_guard :
    {S : Type 0} (b : Bool) (x y : EspErr × S)
    → is_ok x.0 ≡ false
    → is_ok (if b then x else y).0 ≡ true
    → (b ≡ false) × ((if b then x else y) ≡ y) × (is_ok y.0 ≡ true)
past_guard true x y f t = absurd (false≢true (sym f ∙ t))
past_guard false x y f t = (refl, refl, t)
