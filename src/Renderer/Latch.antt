-- ===== src/Renderer/Latch.antt =====
-- What the strip shows after a pass of the render task, whether the pass drew or skipped.
use led_orchestra.Base.{ℕ, ◌≡◌, refl, sym, ap, ◌∙◌, inl, inr, Bool, true, false, arith, Bool-cases}
use led_orchestra.Platform.{Kconfig, Nvs}
use led_orchestra.Renderer.{Renderer}
use led_orchestra.Renderer.Frame.{View, frame, render_needed}
use led_orchestra.Renderer.Hold.{frame_held}
use led_orchestra.Renderer.Task.{
  Phase, waiting, promoting, drawing, Task, draw, is_due, take_snapshot, task_step, Event,
  scene_command, node_command, calibration_command, clock_command, task_event, start, next, System,
  step, booted, Reachable,
}
use mathlib.Core.Bool.{false≢true}

-- Once a frame was drawn, the strip shows the frame of the last view that was drawn.
abbrev ShowsLast : Kconfig → Task → Type 0
ShowsLast k t = t.have_rendered_frame ≡ true → (ms : ℕ) × (t.shown ≡ frame k t.last ms)

rendered_before : (v last : View) (have : Bool) → render_needed v have last ≡ false → have ≡ true
unfolding render_needed
rendered_before v last have h = ground arith

-- A pass leaves the strip showing the frame of its own view.
draw-shown :
    (k : Kconfig) (v : View) (now : ℕ) (t : Task)
    → ShowsLast k t
    → ((draw k v now t).shown ≡ frame k v now) × ShowsLast k (draw k v now t)
unfolding draw
draw-shown k v now t h = elim (Bool-cases (render_needed v t.have_rendered_frame t.last)) [
  | inl e ↦ rw e (refl, λ r. (now, refl))
  | inr e ↦
      let have = rendered_before v t.last t.have_rendered_frame e in
      let (ms, same) = h have in
      let held = frame_held k v t.last now ms (ap (λ b. render_needed v b t.last) (sym have) ∙ e) in
      rw e (same ∙ sym held, h)
]

task_step-ShowsLast :
    (k : Kconfig) (now : ℕ) (p : Phase) (t : Task) (g : Renderer)
    → ShowsLast k t
    → ShowsLast k (task_step k now p t g).0
unfolding task_step
task_step-ShowsLast k now waiting t g h = elim (Bool-cases (is_due (take_snapshot now g))) [
  | inl e ↦ rw e h
  | inr e ↦ rw e h
]
task_step-ShowsLast k now (promoting s) t g h = h
task_step-ShowsLast k now (drawing v ms) t g h = (draw-shown k v ms t h).1

module _ (nvs : Nvs) (k : Kconfig) where
  step-ShowsLast :
      (e : Event) (s : System nvs) → ShowsLast k s.task → ShowsLast k (step nvs k e s).task
  unfolding step
  step-ShowsLast (scene_command c) s h = h
  step-ShowsLast (node_command c) s h = h
  step-ShowsLast (calibration_command c) s h = h
  step-ShowsLast (clock_command t now) s h = h
  step-ShowsLast (task_event now) s h = task_step-ShowsLast k now s.task.phase s.task s.renderer h

  Reachable-ShowsLast :
      (Sent : Event → Type 0) (s : System nvs) → Reachable nvs k Sent s → ShowsLast k s.task
  unfolding booted
  Reachable-ShowsLast Sent s (start f) = λ h. absurd (false≢true h)
  Reachable-ShowsLast Sent s (next e t ok r) = step-ShowsLast e t (Reachable-ShowsLast Sent t r)

  -- In every system that a boot and any events lead to, when a pass comes to its end, the strip shows the
  -- frame of the view that the pass works on, at the pass's own time, whether the pass drew or skipped.
  pub pass_shows :
      (Sent : Event → Type 0) (s : System nvs) (v : View) (ms now : ℕ)
      → Reachable nvs k Sent s
      → s.task.phase ≡ drawing v ms
      → (step nvs k (task_event now) s).task.shown ≡ frame k v ms
  unfolding step task_step
  pass_shows Sent s v ms now r at =
      ap (λ p. (task_step k now p s.task s.renderer).0.shown) at
      ∙ (draw-shown k v ms s.task (Reachable-ShowsLast Sent s r)).0
