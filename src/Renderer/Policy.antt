-- ===== src/Renderer/Policy.antt =====
-- `g_output_policy` and `g_calibration` of led_orchestra_renderer.cpp, over all reachable systems.
use led_orchestra.Base.{ℕ, ◌≡◌, inl, inr, refl, ap, Bool-cases, arith, true}
use mathlib.Core.Bool.{false≢true}
use led_orchestra.Color.Policy.{OutputPolicy, identity_policy}
use led_orchestra.Scene.{Scene, NodeConfig, Calibration}
use led_orchestra.Platform.{Kconfig, Nvs}
use led_orchestra.Store.{calib_defaults}
use led_orchestra.Renderer.{
  Renderer, unpack_rgb, apply_calibration_locked, set_scene, set_node_config, set_calibration,
  renderer_start, sync_clock,
}
use led_orchestra.Renderer.Frame.{View, render_needed}
use led_orchestra.Renderer.Task.{
  Snapshot, take_snapshot, is_due, promote, Phase, waiting, promoting, drawing, Task, draw,
  task_step, Event, scene_command, node_command, calibration_command, clock_command, task_event,
  start, next, System, step, booted, Reachable,
}

-- The policy that a calibration stands for.
abbrev pub policy_of : Calibration → OutputPolicy
policy_of calib = record identity_policy {
  color_correction = unpack_rgb calib.color_correction;
  color_temperature = unpack_rgb calib.color_temperature;
  master_brightness = calib.brightness_cap;
}

abbrev GlobalsDerived : Renderer → Type 0
GlobalsDerived g = g.output_policy ≡ policy_of g.calibration

abbrev ViewDerived : View → Type 0
ViewDerived v = v.policy ≡ policy_of v.calib

-- The view that a pass of the task works on is consistent, wherever the pass stands.
abbrev PhaseDerived : Phase → Type 0
PhaseDerived waiting = Unit
PhaseDerived (promoting s) = ViewDerived s.view
PhaseDerived (drawing v t) = ViewDerived v

calibrated :
    (c : Calibration) (g : Renderer)
    → GlobalsDerived g
    → GlobalsDerived (apply_calibration_locked c g)
unfolding apply_calibration_locked
calibrated c g h =
    ap
      (λ (p : OutputPolicy). record p {
        master_brightness = c.brightness_cap;
        color_correction = unpack_rgb c.color_correction;
        color_temperature = unpack_rgb c.color_temperature;
      })
      h

identity_derived : identity_policy ≡ policy_of calib_defaults
unfolding calib_defaults unpack_rgb
identity_derived = refl

promoted_derived : (s : Snapshot) (g : Renderer) → GlobalsDerived g → GlobalsDerived (promote s g).0
unfolding promote
promoted_derived s g h = ground arith

abbrev LastDerived : Task → Type 0
LastDerived t = t.have_rendered_frame ≡ true → ViewDerived t.last

drawn_derived :
    (k : Kconfig) (v : View) (t : ℕ) (task : Task)
    → ViewDerived v
    → LastDerived task
    → PhaseDerived (draw k v t task).phase × LastDerived (draw k v t task)
unfolding draw
drawn_derived k v t task hv h =
    elim (Bool-cases (render_needed v task.have_rendered_frame task.last)) [
      | inl e ↦ rw e (tt, λ r. hv)
      | inr e ↦ rw e (tt, h)
    ]

task_step-derived :
    (k : Kconfig) (now : ℕ) (p : Phase) (task : Task) (g : Renderer)
    → GlobalsDerived g
    → PhaseDerived p
    → LastDerived task
    → let r = task_step k now p task g in
      GlobalsDerived r.1 × PhaseDerived r.0.phase × LastDerived r.0
unfolding task_step take_snapshot
task_step-derived k now waiting task g hg hp h = elim (Bool-cases (is_due (take_snapshot now g))) [
  | inl e ↦ rw e (hg, hg, h)
  | inr e ↦ rw e (hg, hg, h)
]
task_step-derived k now (promoting s) task g hg hp h = (promoted_derived s g hg, hp, h)
task_step-derived k now (drawing v t) task g hg hp h =
    let (a, b) = drawn_derived k v t task hp h in (hg, a, b)

module _ (nvs : Nvs) where
  pub record Derived (s : System nvs) : Type 0 where
    pub globals : GlobalsDerived s.renderer
    pub pass : PhaseDerived s.task.phase
    pub last : s.task.have_rendered_frame ≡ true → ViewDerived s.task.last

  scene_derived :
      (c : Scene) (g : Renderer) (f : nvs.Flash)
      → GlobalsDerived g
      → GlobalsDerived (set_scene nvs c (g, f)).1
  unfolding set_scene
  scene_derived c g f h = ground arith

  node_derived :
      (k : Kconfig) (c : NodeConfig) (g : Renderer) (f : nvs.Flash)
      → GlobalsDerived g
      → GlobalsDerived (set_node_config nvs k c (g, f)).1
  unfolding set_node_config
  node_derived k c g f h = ground arith

  booted-Derived : (k : Kconfig) (f : nvs.Flash) → Derived (booted nvs k f)
  unfolding booted renderer_start
  booted-Derived k f = record {
    globals = calibrated _ _ identity_derived;
    pass = tt;
    last = λ h. absurd (false≢true h);
  }

  step-Derived : (k : Kconfig) (e : Event) (s : System nvs) → Derived s → Derived (step nvs k e s)
  unfolding step set_calibration sync_clock
  step-Derived k (scene_command c) s d = record {
    globals = scene_derived c s.renderer s.flash d.globals;
    pass = d.pass;
    last = d.last;
  }
  step-Derived k (node_command c) s d = record {
    globals = node_derived k c s.renderer s.flash d.globals;
    pass = d.pass;
    last = d.last;
  }
  step-Derived k (calibration_command c) s d = record {
    globals = calibrated c s.renderer d.globals;
    pass = d.pass;
    last = d.last;
  }
  step-Derived k (clock_command t now) s d = record {
    globals = d.globals;
    pass = d.pass;
    last = d.last;
  }
  step-Derived k (task_event now) s d =
      let (g, p, l) =
        task_step-derived k now s.task.phase s.task s.renderer d.globals d.pass d.last in
      record { globals = g; pass = p; last = l }

  -- In every system that a boot and any events lead to, the output policy is the one that the
  -- calibration stands for, and so it is in the view that a pass of the task works on.
  pub Reachable-Derived :
      (k : Kconfig) (Sent : Event → Type 0) (s : System nvs) → Reachable nvs k Sent s → Derived s
  Reachable-Derived k Sent s (start f) = booted-Derived k f
  Reachable-Derived k Sent s (next e t ok r) = step-Derived k e t (Reachable-Derived k Sent t r)
