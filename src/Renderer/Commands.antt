-- ===== src/Renderer/Commands.antt =====
-- The commands of led_orchestra_renderer.cpp branch by branch, and the power cycle after them.
use led_orchestra.Base.{
  ℕ, ◌<◌, ◌≡◌, ◌≢◌, ◌⊎◌, inl, inr, refl, ap, sym, true, false, none, some, arith, ◌==◌,
  Option-cases, Bool-cases, ==→eq, ==_refl,
}
use led_orchestra.Scene.{Scene, NodeConfig, Calibration}
use led_orchestra.Platform.{EspErr, is_ok, esp_ok, esp_err_invalid_arg, Kconfig, Nvs, NvsLaws}
use led_orchestra.Effects.Registry.{EffectMeta, effect_meta}
use led_orchestra.Store.{config_save, scene_save, calibration_save, unknown_override}
use led_orchestra.Store.RoundTrip.{
  ConfigFits, SceneFits, CalibFits, config_load-save, scene_load-save, calibration_load-save,
}
use led_orchestra.Renderer.{
  Renderer, is_known, set_scene, set_node_config, set_calibration, renderer_start,
  apply_calibration_locked,
}

is_ok-esp_ok : (err : EspErr) → is_ok err ≡ true → err ≡ esp_ok
is_ok-esp_ok err h = ground arith

known_cases :
    (effect : ℕ)
    → ((effect_meta effect ≡ none) × (is_known effect ≡ false))
      ⊎ (((m : EffectMeta) × (effect_meta effect ≡ some m)) × (is_known effect ≡ true))
unfolding is_known
known_cases effect = elim (Option-cases (effect_meta effect)) [
  | inl e ↦ inl (e, ground arith)
  | inr (m, e) ↦ inr ((m, e), ground arith)
]

written {ℓ} : {F : Type ℓ} (r : EspErr × F) → is_ok r.0 ≡ true → r ≡ (esp_ok, r.1)
written (err, f) h = ap (λ (e : EspErr). (e, f)) (is_ok-esp_ok err h)

module _ (nvs : Nvs) where
  -- A scene of an unknown effect is refused and changes nothing. An immediate one is shown, drops
  -- what was pending and is written to the flash. A scheduled one waits as the pending scene; the
  -- active scene and the flash stay as they are.
  pub set_scene_cases :
      (scene : Scene) (g : Renderer) (f : nvs.Flash)
      → let r = set_scene nvs scene (g, f) in
        ((effect_meta scene.effect ≡ none) × (r ≡ (esp_err_invalid_arg, g, f)))
        ⊎ (((m : EffectMeta) × (effect_meta scene.effect ≡ some m))
            × (((scene.scheduled_start_ms ≡ 0)
                  × (r ≡ (
                    esp_ok,
                    record g { scene = scene; has_pending = false },
                    (scene_save nvs scene f).1,
                  )))
                ⊎ ((scene.scheduled_start_ms ≢ 0)
                    × (r ≡ (esp_ok, record g { pending = scene; has_pending = true }, f)))))
  unfolding set_scene
  set_scene_cases scene g f = elim (known_cases scene.effect) [
    | inl (e, unknown) ↦ inl (e, rw unknown)
    | inr (e, known) ↦ elim (Bool-cases (scene.scheduled_start_ms == 0)) [
      | inl now ↦ inr (e, inl (==→eq _ _ now, rw (known, now)))
      | inr later ↦ inr (e, inr ((λ z. ground (arith, ==_refl 0)), rw (known, later)))
    ]
  ]

  set_node_config_accepted :
      (k : Kconfig) (c : NodeConfig) (g : Renderer) (f : nvs.Flash)
      → (set_node_config nvs k c (g, f)).0 ≡ esp_ok
      → (set_node_config nvs k c (g, f) ≡ (esp_ok, record g { node = c }, (config_save nvs c f).1))
        × (0 < c.segment_len)
        × (0 < c.total_leds)
        × (c.led_gpio ≡ k.led_gpio)
  unfolding set_node_config
  set_node_config_accepted k c g f h = ground arith

  -- A configuration with fields within their widths that `set_node_config` accepts is the one the node
  -- draws with, whether or not it can be written to the flash; unless the write fails, it is also the one
  -- the node boots with after a power cycle.
  pub set_node_config_durable :
      NvsLaws nvs
      → (k : Kconfig) (c : NodeConfig) (g h : Renderer) (f : nvs.Flash) → ConfigFits c
      → (set_node_config nvs k c (g, f)).0 ≡ esp_ok
      → let r = set_node_config nvs k c (g, f) in
        (r.1.node ≡ c)
        × ((is_ok (config_save nvs c f).0 ≡ false) ⊎ ((renderer_start nvs k r.2 h).node ≡ c))
  unfolding renderer_start apply_calibration_locked
  set_node_config_durable laws k c g h f v accepted =
      let (e, hl, ht, hg) = set_node_config_accepted k c g f accepted in
      (
        rw e,
        elim (Bool-cases (is_ok (config_save nvs c f).0)) [
          | inr failed ↦ inl failed
          | inl fine ↦
              let saved = written (config_save nvs c f) fine in
              inr (rw (e, config_load-save nvs laws k c f _ v hl ht hg saved))
        ],
      )

  -- A calibration with fields within their widths and a registered palette override, or none, that can
  -- be written to the flash is the one the node draws with and the one it boots with after a power cycle.
  pub set_calibration_durable :
      NvsLaws nvs
      → (k : Kconfig) (c : Calibration) (g h : Renderer) (f f1 : nvs.Flash) → CalibFits c
      → unknown_override c.palette_override ≡ false
      → calibration_save nvs c f ≡ (esp_ok, f1)
      → let r = set_calibration nvs c (g, f) in
        (r.1.calibration ≡ c) × ((renderer_start nvs k r.2 h).calibration ≡ c)
  unfolding set_calibration renderer_start apply_calibration_locked
  set_calibration_durable laws k c g h f f1 v known saved =
      (refl, rw (saved, calibration_load-save nvs laws c f f1 v known saved))

  -- An immediate scene with fields within their widths that is accepted and can be written to the flash
  -- is the active one, and the one the node boots with after a power cycle.
  pub set_scene_durable :
      NvsLaws nvs
      → (k : Kconfig) (s : Scene) (g h : Renderer) (f f1 : nvs.Flash) → SceneFits s
      → (set_scene nvs s (g, f)).0 ≡ esp_ok
      → s.scheduled_start_ms ≡ 0
      → scene_save nvs s f ≡ (esp_ok, f1)
      → let r = set_scene nvs s (g, f) in (r.1.scene ≡ s) × ((renderer_start nvs k r.2 h).scene ≡ s)
  unfolding renderer_start apply_calibration_locked
  set_scene_durable laws k s g h f f1 v accepted now saved = elim (set_scene_cases s g f) [
    | inl (e, r) ↦ cc
    | inr (m, inl (e, r)) ↦ (
      rw r,
      rw (r, saved, scene_load-save nvs laws s f f1 v saved)
          (λ i. record s { scheduled_start_ms = sym now i }),
    )
    | inr (m, inr (e, r)) ↦ absurd (e now)
  ]
