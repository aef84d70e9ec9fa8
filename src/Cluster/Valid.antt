-- ===== src/Cluster/Valid.antt =====
-- The valid states of the renderer under the commands of led_orchestra_cluster.cpp.
use led_orchestra.Base.{
  ℕ, ◌<◌, ◌≡◌, inl, inr, Bool, true, false, not, ◌||◌, Option, none, some, List, [], arith, ◌==◌,
  Bool-cases, if◌then◌else◌,
}
use mathlib.Core.Bool.{false≢true}
use led_orchestra.Scene.{Scene, NodeConfig, Calibration}
use led_orchestra.Platform.{EspErr, esp_fail, esp_err_invalid_arg, Kconfig, Nvs}
use led_orchestra.Store.{unknown_override}
use led_orchestra.Renderer.{
  Renderer, set_scene, set_node_config, set_calibration, sync_clock, is_known,
  apply_calibration_locked,
}
use led_orchestra.Cluster.{
  CommandPath, Payload, Update, Outcome, applied, expect_target, decode_payload, scene_field,
  config_field, clock_field, calibration_field, handle_set_scene, handle_set_node_config,
  handle_sync_clock, handle_set_calibration, command_callback,
}

-- The active scene and the one that waits have registered effects, the segment and the strip are not
-- empty, the pin is that of the build, and the palette override is registered or the mark for none.
pub record IsValid (k : Kconfig) (g : Renderer) : Type 0 where
  pub scene : is_known g.scene.effect ≡ true
  pub pending : g.has_pending ≡ true → is_known g.pending.effect ≡ true
  pub segment : 0 < g.node.segment_len
  pub strip : 0 < g.node.total_leds
  pub gpio : g.node.led_gpio ≡ k.led_gpio
  pub override : unknown_override g.calibration.palette_override ≡ false

module _ (nvs : Nvs) (k : Kconfig) where
  set_scene-IsValid :
      (s : Scene) (g : Renderer) (f : nvs.Flash)
      → IsValid k g
      → IsValid k (set_scene nvs s (g, f)).1
  unfolding set_scene
  set_scene-IsValid s g f v = elim (Bool-cases (is_known s.effect)) [
    | inl e ↦ elim (Bool-cases (s.scheduled_start_ms == 0)) [
      | inl d ↦
          rw (e, d)
            (record {
              scene = e;
              pending = λ h. absurd (false≢true h);
              segment = v.segment;
              strip = v.strip;
              gpio = v.gpio;
              override = v.override;
            })
      | inr d ↦
          rw (e, d)
            (record {
              scene = v.scene;
              pending = λ h. e;
              segment = v.segment;
              strip = v.strip;
              gpio = v.gpio;
              override = v.override;
            })
    ]
    | inr e ↦ rw e v
  ]

  set_node_config-IsValid :
      (c : NodeConfig) (g : Renderer) (f : nvs.Flash)
      → IsValid k g
      → IsValid k (set_node_config nvs k c (g, f)).1
  unfolding set_node_config
  set_node_config-IsValid c g f v =
      elim (Bool-cases
        ((c.segment_len == 0) || (c.total_leds == 0) || not (c.led_gpio == k.led_gpio))) [
          | inl e ↦ rw e v
          | inr e ↦ rw e (record {
            scene = v.scene;
            pending = v.pending;
            segment = ground arith;
            strip = ground arith;
            gpio = ground arith;
            override = v.override;
          })
        ]

  set_calibration-IsValid :
      (c : Calibration) (g : Renderer) (f : nvs.Flash)
      → unknown_override c.palette_override ≡ false
      → IsValid k g
      → IsValid k (set_calibration nvs c (g, f)).1
  unfolding set_calibration apply_calibration_locked
  set_calibration-IsValid c g f known v = record {
    scene = v.scene;
    pending = v.pending;
    segment = v.segment;
    strip = v.strip;
    gpio = v.gpio;
    override = known;
  }

  sync_clock-IsValid :
      (time now : ℕ) (g : Renderer) → IsValid k g → IsValid k (sync_clock time now g)
  unfolding sync_clock
  sync_clock-IsValid time now g v = record {
    scene = v.scene;
    pending = v.pending;
    segment = v.segment;
    strip = v.strip;
    gpio = v.gpio;
    override = v.override;
  }

  abbrev KeepsValid : Outcome nvs → Type 0
  KeepsValid r = IsValid k r.1.0

  decoded-KeepsValid {ℓ} :
      {A : Type ℓ} (g : Renderer) (f : nvs.Flash) (target : Bool) (o : Option A)
      (after : A → Outcome nvs)
      → IsValid k g
      → ((a : A) → KeepsValid (after a))
      → KeepsValid (
          if not target
          then (esp_fail, (g, f), [])
          else elim o [ none ↦ (esp_fail, (g, f), []) | some a ↦ after a ])
  decoded-KeepsValid g f false o after v h = v
  decoded-KeepsValid g f true none after v h = v
  decoded-KeepsValid g f true (some a) after v h = h a

  applied-KeepsValid :
      (r : EspErr × Renderer × nvs.Flash) (us : List Update)
      → IsValid k r.1
      → KeepsValid (applied nvs r us)
  unfolding applied
  applied-KeepsValid (err, g, f) us v = v

  checked-KeepsValid :
      (c : Calibration) (g : Renderer) (f : nvs.Flash) (us : List Update)
      → IsValid k g
      → KeepsValid (
          if unknown_override c.palette_override
          then (esp_err_invalid_arg, (g, f), [])
          else applied nvs (set_calibration nvs c (g, f)) us)
  checked-KeepsValid c g f us v = elim (Bool-cases (unknown_override c.palette_override)) [
    | inl e ↦ rw e v
    | inr e ↦
        rw e
          (applied-KeepsValid (set_calibration nvs c (g, f)) us (set_calibration-IsValid c g f e v))
  ]

  if-KeepsValid :
      (test : Bool) (x y : Outcome nvs)
      → KeepsValid x
      → KeepsValid y
      → KeepsValid (if test then x else y)
  if-KeepsValid true x y hx hy = hx
  if-KeepsValid false x y hx hy = hy

  -- Whatever a command's path and payload, it keeps the renderer valid: registered effects in the active
  -- and the waiting scene, a segment and a strip that are not empty, the pin of the build, and a
  -- palette override that is registered or the mark for none.
  pub command_callback-IsValid :
      (now endpoint : ℕ) (path : CommandPath) (p : Payload) (g : Renderer) (f : nvs.Flash)
      → IsValid k g
      → IsValid k (command_callback nvs k now endpoint path p (g, f)).1.0
  unfolding command_callback handle_set_scene handle_set_node_config handle_sync_clock
      handle_set_calibration
  command_callback-IsValid now endpoint path p g f v =
      let pick = λ (id : ℕ). if-KeepsValid (path.command_id == id) in
      let target = expect_target endpoint path in
      pick 0 _ _
        (decoded-KeepsValid g f (target 0) (decode_payload scene_field p g.scene) _ v
          (λ s. applied-KeepsValid (set_scene nvs s (g, f)) _ (set_scene-IsValid s g f v)))
        (pick 1 _ _
          (decoded-KeepsValid g f (target 1) (decode_payload config_field p g.node) _ v (λ c.
            applied-KeepsValid (set_node_config nvs k c (g, f)) _
              (set_node_config-IsValid c g f v)))
          (pick 2 _ _
            (decoded-KeepsValid g f (target 2) (decode_payload clock_field p 0) _ v
              (λ time. sync_clock-IsValid time now g v))
            (pick 3 _ _
              (decoded-KeepsValid g f (target 3) (decode_payload calibration_field p g.calibration)
                _ v (λ c. checked-KeepsValid c g f _ v))
              v)))
