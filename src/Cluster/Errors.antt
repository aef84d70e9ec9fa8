-- ===== src/Cluster/Errors.antt =====
-- The failing branches of the command handlers of led_orchestra_cluster.cpp.
use led_orchestra.Base.{
  ℕ, ◌≡◌, ◌⊎◌, inl, inr, refl, Bool, true, false, not, ◌||◌, Option, none, some, List, [], ◌==◌,
  Bool-cases, if◌then◌else◌,
}
use led_orchestra.Scene.{Scene, NodeConfig, Calibration}
use led_orchestra.Platform.{EspErr, esp_ok, esp_fail, esp_err_invalid_arg, Kconfig, Nvs}
use led_orchestra.Store.{unknown_override}
use led_orchestra.Renderer.{Renderer, set_scene, set_node_config, set_calibration, is_known}
use led_orchestra.Cluster.{
  CommandPath, Payload, Update, Outcome, applied, expect_target, decode_payload, scene_field,
  config_field, clock_field, calibration_field, handle_set_scene, handle_set_node_config,
  handle_sync_clock, handle_set_calibration, command_callback,
}

module _ (nvs : Nvs) where
  -- The outcome says success, or the state is the one before and no attribute was updated.
  abbrev pub FailsCleanly : Renderer × nvs.Flash → Outcome nvs → Type 0
  FailsCleanly state r = (r.0 ≡ esp_ok) ⊎ ((r.1 ≡ state) × (r.2 ≡ []))

  applied-FailsCleanly :
      (g : Renderer) (f : nvs.Flash) (r : EspErr × Renderer × nvs.Flash) (us : List Update)
      → (r.0 ≡ esp_ok) ⊎ (r ≡ (esp_err_invalid_arg, g, f))
      → FailsCleanly (g, f) (applied nvs r us)
  unfolding applied
  applied-FailsCleanly g f r us (inl ok) = inl ok
  applied-FailsCleanly g f r us (inr e) = inr (rw e, rw e)

  set_scene-outcome :
      (s : Scene) (g : Renderer) (f : nvs.Flash)
      → let r = set_scene nvs s (g, f) in (r.0 ≡ esp_ok) ⊎ (r ≡ (esp_err_invalid_arg, g, f))
  unfolding set_scene
  set_scene-outcome s g f = elim (Bool-cases (is_known s.effect)) [
    | inl e ↦ elim (Bool-cases (s.scheduled_start_ms == 0)) [
      | inl d ↦ inl (rw (e, d))
      | inr d ↦ inl (rw (e, d))
    ]
    | inr e ↦ inr (rw e)
  ]

  set_node_config-outcome :
      (k : Kconfig) (c : NodeConfig) (g : Renderer) (f : nvs.Flash)
      → let r = set_node_config nvs k c (g, f) in (r.0 ≡ esp_ok) ⊎ (r ≡ (esp_err_invalid_arg, g, f))
  unfolding set_node_config
  set_node_config-outcome k c g f =
      elim (Bool-cases
        ((c.segment_len == 0) || (c.total_leds == 0) || not (c.led_gpio == k.led_gpio))) [
          | inl e ↦ inr (rw e)
          | inr e ↦ inl (rw e)
        ]

  decoded-FailsCleanly {ℓ} :
      {A : Type ℓ} (state : Renderer × nvs.Flash) (target : Bool) (o : Option A)
      (after : A → Outcome nvs)
      → ((a : A) → FailsCleanly state (after a))
      → FailsCleanly state (
          if not target
          then (esp_fail, state, [])
          else elim o [ none ↦ (esp_fail, state, []) | some a ↦ after a ])
  decoded-FailsCleanly state false o after h = inr (refl, refl)
  decoded-FailsCleanly state true none after h = inr (refl, refl)
  decoded-FailsCleanly state true (some a) after h = h a

  set_scene-FailsCleanly :
      (endpoint : ℕ) (path : CommandPath) (p : Payload) (g : Renderer) (f : nvs.Flash)
      → FailsCleanly (g, f) (handle_set_scene nvs endpoint path p (g, f))
  unfolding handle_set_scene
  set_scene-FailsCleanly endpoint path p g f =
      decoded-FailsCleanly (g, f) (expect_target endpoint path 0)
        (decode_payload scene_field p g.scene) _
        (λ s. applied-FailsCleanly g f _ _ (set_scene-outcome s g f))

  set_node_config-FailsCleanly :
      (k : Kconfig) (endpoint : ℕ) (path : CommandPath) (p : Payload) (g : Renderer) (f : nvs.Flash)
      → FailsCleanly (g, f) (handle_set_node_config nvs k endpoint path p (g, f))
  unfolding handle_set_node_config
  set_node_config-FailsCleanly k endpoint path p g f =
      decoded-FailsCleanly (g, f) (expect_target endpoint path 1)
        (decode_payload config_field p g.node) _
        (λ c. applied-FailsCleanly g f _ _ (set_node_config-outcome k c g f))

  sync_clock-FailsCleanly :
      (now endpoint : ℕ) (path : CommandPath) (p : Payload) (g : Renderer) (f : nvs.Flash)
      → FailsCleanly (g, f) (handle_sync_clock nvs now endpoint path p (g, f))
  unfolding handle_sync_clock
  sync_clock-FailsCleanly now endpoint path p g f =
      decoded-FailsCleanly (g, f) (expect_target endpoint path 2) (decode_payload clock_field p 0) _
        (λ time. inl refl)

  checked-FailsCleanly :
      (c : Calibration) (g : Renderer) (f : nvs.Flash) (us : List Update) (unknown : Bool)
      → FailsCleanly
          (g, f)
          (if unknown
            then (esp_err_invalid_arg, (g, f), [])
            else applied nvs (set_calibration nvs c (g, f)) us)
  unfolding set_calibration applied
  checked-FailsCleanly c g f us true = inr (refl, refl)
  checked-FailsCleanly c g f us false = inl refl

  set_calibration-FailsCleanly :
      (endpoint : ℕ) (path : CommandPath) (p : Payload) (g : Renderer) (f : nvs.Flash)
      → FailsCleanly (g, f) (handle_set_calibration nvs endpoint path p (g, f))
  unfolding handle_set_calibration
  set_calibration-FailsCleanly endpoint path p g f =
      decoded-FailsCleanly (g, f) (expect_target endpoint path 3)
        (decode_payload calibration_field p g.calibration) _
        (λ c. checked-FailsCleanly c g f _ (unknown_override c.palette_override))

  if-FailsCleanly :
      (state : Renderer × nvs.Flash) (test : Bool) (x y : Outcome nvs)
      → FailsCleanly state x
      → FailsCleanly state y
      → FailsCleanly state (if test then x else y)
  if-FailsCleanly state true x y hx hy = hx
  if-FailsCleanly state false x y hx hy = hy

  -- A command, whatever its path and payload, succeeds, or it leaves the renderer, the flash and the
  -- attributes as they were.
  pub command_callback-FailsCleanly :
      (k : Kconfig) (now endpoint : ℕ) (path : CommandPath) (p : Payload) (g : Renderer)
      (f : nvs.Flash)
      → FailsCleanly (g, f) (command_callback nvs k now endpoint path p (g, f))
  unfolding command_callback
  command_callback-FailsCleanly k now endpoint path p g f =
      let pick = λ (id : ℕ). if-FailsCleanly (g, f) (path.command_id == id) in
      pick 0 _ _ (set_scene-FailsCleanly endpoint path p g f) (
        pick 1 _ _ (set_node_config-FailsCleanly k endpoint path p g f) (
          pick 2 _ _ (sync_clock-FailsCleanly now endpoint path p g f)
            (pick 3 _ _ (set_calibration-FailsCleanly endpoint path p g f) (inr (refl, refl)))))
