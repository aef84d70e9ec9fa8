-- ===== src/Renderer/Schedule.antt =====
-- When a scheduled scene starts: the two critical sections of a pass, with commands between them.
use mathlib.Core.Path.{subst}
use led_orchestra.Base.{
  ℕ, ◌+◌, ◌-◌, ◌^◌, ◌≤◌, ◌<◌, ◌≡◌, ◌≢◌, ◌⊎◌, inl, inr, refl, sym, ap, ◌∙◌, true, false, ◌&&◌, none,
  arith, ◌==◌, Bool-cases,
}
use led_orchestra.Scene.{Scene}
use led_orchestra.Platform.{EspErr, esp_ok, Kconfig, Nvs}
use led_orchestra.Effects.Registry.{effect_meta}
use led_orchestra.Renderer.{Renderer, set_scene, sync_clock}
use led_orchestra.Renderer.Commands.{set_scene_cases}
use led_orchestra.Renderer.Pass.{Starts, pending_Starts, waiting_for, waiting_for-kept}
use led_orchestra.Renderer.Task.{
  Snapshot, synchronized_ms, is_due, promote, Task, waiting, task_step,
}

synchronized_ms-sync_clock-pending :
    (t c now : ℕ) (scene : Scene) (g : Renderer)
    → c < 2 ^ 64
    → c ≤ now
    → t + (now - c) < 2 ^ 64
    → synchronized_ms now (record (sync_clock t c g) { pending = scene; has_pending = true })
      ≡ t + (now - c)
unfolding synchronized_ms sync_clock
synchronized_ms-sync_clock-pending t c now scene g small follows near = omega arith

-- Whatever commands came between the two critical sections, if a sequence number names one scene, the
-- second leaves the globals as they are or makes the scene that was found due the active one, so no
-- scheduled scene starts before its time; the pass goes on with the active scene.
pub promote_on_time :
    (s : Snapshot) (g : Renderer)
    → is_due s ≡ true
    → (g.pending.sequence ≡ s.pending.sequence → g.pending ≡ s.pending)
    → let (after, drawn) = promote s g in
      (drawn ≡ after.scene)
      × ((after ≡ g)
          ⊎ ((g.has_pending ≡ true)
              × (after ≡ record g { scene = s.pending; has_pending = false })
              × (s.pending.scheduled_start_ms ≤ s.now_ms)))
unfolding promote is_due
promote_on_time s g due one =
    elim (Bool-cases (g.has_pending && (g.pending.sequence == s.pending.sequence))) [
      | inl e ↦
          let same = one (ground arith) in
          (
            refl,
            inr (
              ground arith,
              rw e (ap (λ p. record g { scene = p; has_pending = false }) same),
              ground arith,
            ),
          )
      | inr e ↦ (refl, inl (rw e))
    ]

set_scene-waiting_for :
    (nvs : Nvs) (scene : Scene) (g : Renderer) (f : nvs.Flash)
    → effect_meta scene.effect ≢ none
    → scene.scheduled_start_ms ≢ 0
    → set_scene nvs scene (g, f) ≡ (esp_ok, waiting_for scene g, f)
set_scene-waiting_for nvs scene g f known scheduled = elim (set_scene_cases nvs scene g f) [
  | inl (unknown, e) ↦ absurd (known unknown)
  | inr (n, inl (e, r)) ↦ absurd (scheduled e)
  | inr (n, inr (e, r)) ↦ r
]

-- A node that was told the controller's time `t` when its own clock read `c`, and then a scheduled scene of a known
-- effect: a pass that begins next, at `now` of its own clock, goes by the time `t + (now - c)`. If the start of
-- the scene has come by then, the scene becomes the active one, nothing is pending after and the pass
-- draws it at this time; otherwise the scene keeps waiting and the pass draws the one that was active. So it is
-- if no command comes before the second critical section of the pass. If a second scheduled scene of a known effect
-- and of another sequence number comes there, neither starts in this pass: the second one waits in place
-- of the first, and the active scene stays. Neither clock wraps.
pub set_scene-Starts :
    (nvs : Nvs) (k : Kconfig) (scene other : Scene) (t c now later : ℕ) (task : Task) (g : Renderer)
    (f : nvs.Flash)
    → effect_meta scene.effect ≢ none
    → scene.scheduled_start_ms ≢ 0
    → effect_meta other.effect ≢ none
    → other.scheduled_start_ms ≢ 0
    → (other.sequence == scene.sequence) ≡ false
    → c ≤ now
    → c < 2 ^ 64
    → t + (now - c) < 2 ^ 64
    → let told = (set_scene nvs scene (sync_clock t c g, f)).1 in
      let first = task_step k now waiting task told in
      Starts k scene (t + (now - c)) now later g.scene task told
      × ((task_step k later first.0.phase first.0 (set_scene nvs other (first.1, f)).1).1
          ≡ waiting_for other (sync_clock t c g))
unfolding sync_clock
set_scene-Starts nvs k scene other t c now later task g f known scheduled other_known
      other_scheduled differs follows small near =
    let told = waiting_for scene (sync_clock t c g) in
    let at = synchronized_ms-sync_clock-pending t c now scene g small follows near in
    let first = task_step k now waiting task told in
    subst
      (λ (w : EspErr × Renderer × nvs.Flash).
        Starts k scene (t + (now - c)) now later g.scene task w.1
        × ((task_step k later (task_step k now waiting task w.1).0.phase
              (task_step k now waiting task w.1).0
              (set_scene nvs other ((task_step k now waiting task w.1).1, f)).1).1
            ≡ waiting_for other (sync_clock t c g)))
      (sym (set_scene-waiting_for nvs scene (sync_clock t c g) f known scheduled))
      (
        subst (λ time. Starts k scene time now later g.scene task told) at
            (pending_Starts k now later task told refl),
        ap (λ (w : EspErr × Renderer × nvs.Flash). (task_step k later first.0.phase first.0 w.1).1)
              (set_scene-waiting_for nvs other first.1 f other_known other_scheduled)
            ∙ waiting_for-kept k other now later task told differs,
      )
