-- ===== src/Renderer/Pass.antt =====
-- What one pass of `render_task` of led_orchestra_renderer.cpp makes of the pending scene.
use mathlib.Core.Path.{subst}
use led_orchestra.Base.{
  ℕ, ◌≤◌, ◌<◌, ◌≡◌, ◌⊎◌, inl, inr, refl, sym, ap, true, false, leb, arith, ◌==◌, ==_refl, leb→le,
  Bool-cases,
}
use led_orchestra.Scene.{Scene}
use led_orchestra.Platform.{Kconfig}
use led_orchestra.Renderer.{Renderer}
use led_orchestra.Renderer.Frame.{View}
use led_orchestra.Renderer.Task.{
  Snapshot, take_snapshot, synchronized_ms, is_due, promote, Task, waiting, promoting, drawing,
  task_step,
}

-- What the task draws from now on, if the scene stays.
abbrev pub view_of : Renderer → View
view_of g = record {
  scene = g.scene;
  node = g.node;
  policy = g.output_policy;
  calib = g.calibration;
}

-- How a pass of the task goes on from its first critical section.
abbrev pub Goes : Kconfig → Scene → ℕ → ℕ → Scene → Renderer → Task × Renderer → Type 0
Goes k scene time later active g (first, between) =
    let (second, after) = task_step k later first.phase first between in
    ((scene.scheduled_start_ms ≤ time)
      × (after.scene ≡ scene)
      × (after.has_pending ≡ false)
      × (second.phase ≡ drawing (record (view_of g) { scene = scene }) time))
    ⊎ ((time < scene.scheduled_start_ms)
        × (after.scene ≡ active)
        × (after.has_pending ≡ true)
        × (after.pending ≡ scene)
        × (first.phase ≡ drawing (record (view_of g) { scene = active }) time))

-- What a pass of the task, its first critical section at `now` and its second at `later`, makes of a scheduled scene
-- on a node that has time `time` at `now` and showed `active`: it becomes the active scene, nothing is pending
-- and the pass draws it, if its start is not after this time; otherwise it keeps waiting and the pass draws
-- the active one.
abbrev pub Starts : Kconfig → Scene → ℕ → ℕ → ℕ → Scene → Task → Renderer → Type 0
Starts k scene time now later active task g =
    Goes k scene time later active g (task_step k now waiting task g)

take_snapshot-due :
    (now : ℕ) (g : Renderer)
    → g.has_pending ≡ true
    → leb g.pending.scheduled_start_ms (synchronized_ms now g) ≡ true
    → is_due (take_snapshot now g) ≡ true
unfolding is_due take_snapshot
take_snapshot-due now g waits due = ground arith

take_snapshot-early :
    (now : ℕ) (g : Renderer)
    → leb g.pending.scheduled_start_ms (synchronized_ms now g) ≡ false
    → is_due (take_snapshot now g) ≡ false
unfolding is_due take_snapshot
take_snapshot-early now g early = ground arith

promote-pending :
    (now : ℕ) (g : Renderer)
    → g.has_pending ≡ true
    → promote (take_snapshot now g) g
      ≡ (record g { scene = g.pending; has_pending = false }, g.pending)
unfolding take_snapshot promote
promote-pending now g waits = ground (arith, ==_refl g.pending.sequence)

task_step-due :
    (k : Kconfig) (now : ℕ) (task : Task) (g : Renderer)
    → is_due (take_snapshot now g) ≡ true
    → task_step k now waiting task g ≡ (record task { phase = promoting (take_snapshot now g) }, g)
unfolding task_step
task_step-due k now task g due = rw due refl

task_step-early :
    (k : Kconfig) (now : ℕ) (task : Task) (g : Renderer)
    → is_due (take_snapshot now g) ≡ false
    → task_step k now waiting task g
      ≡ (record task { phase = drawing (take_snapshot now g).view (take_snapshot now g).now_ms }, g)
unfolding task_step
task_step-early k now task g early = rw early refl

pub pending_Starts :
    (k : Kconfig) (now later : ℕ) (task : Task) (g : Renderer)
    → g.has_pending ≡ true
    → Starts k g.pending (synchronized_ms now g) now later g.scene task g
unfolding task_step take_snapshot
pending_Starts k now later task g waits =
    let time = synchronized_ms now g in
    let goes : Task × Renderer → Type 0 = λ r. Goes k g.pending time later g.scene g r in
    elim (Bool-cases (leb g.pending.scheduled_start_ms time)) [
      | inl due ↦
          let p = promote-pending now g waits in
          subst goes (sym (task_step-due k now task g (take_snapshot-due now g waits due))) (
            inl (
              leb→le g.pending.scheduled_start_ms time due,
              ap (λ (r : Renderer × Scene). r.0.scene) p,
              ap (λ (r : Renderer × Scene). r.0.has_pending) p,
              ap (λ (r : Renderer × Scene). drawing (record (view_of g) { scene = r.1 }) time) p,
            ))
      | inr early ↦
          subst goes (sym (task_step-early k now task g (take_snapshot-early now g early)))
            (inr (ground arith, refl, waits, refl, refl))
    ]

-- The scene that was found due is not the pending one any more.
promote-replaced :
    (s : Snapshot) (g : Renderer)
    → (g.pending.sequence == s.pending.sequence) ≡ false
    → (promote s g).0 ≡ g
unfolding promote
promote-replaced s g other = rw other (ground arith)

-- A renderer in which another scheduled scene waits.
abbrev pub waiting_for : Scene → Renderer → Renderer
waiting_for other g = record g { pending = other; has_pending = true }

pub waiting_for-kept :
    (k : Kconfig) (other : Scene) (now later : ℕ) (task : Task) (g : Renderer)
    → (other.sequence == g.pending.sequence) ≡ false
    → let first = task_step k now waiting task g in
      (task_step k later first.0.phase first.0 (waiting_for other first.1)).1 ≡ waiting_for other g
unfolding task_step take_snapshot
waiting_for-kept k other now later task g differs =
    let kept : Task × Renderer → Type 0 =
      λ r. (task_step k later r.0.phase r.0 (waiting_for other r.1)).1 ≡ waiting_for other g in
    elim (Bool-cases (is_due (take_snapshot now g))) [
      | inl due ↦
          subst kept (sym (task_step-due k now task g due))
            (promote-replaced (take_snapshot now g) (waiting_for other g) differs)
      | inr early ↦ subst kept (sym (task_step-early k now task g early)) refl
    ]
