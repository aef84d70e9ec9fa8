-- ===== src/Console/Arguments/Tunings.antt =====
-- The values that the commands of calibration and of groups read from their arguments fit their widths.
use led_orchestra.Base.{
  ℕ, ◌^◌, ◌≤◌, ◌<◌, ◌≡◌, sym, inl, inr, Bool, true, false, ◌||◌, not, Option, none, some, List,
  arith, ltb, leb, if◌then◌else◌, length, Bool-cases,
}
use mathlib.Core.Path.{subst}
use led_orchestra.Console.{
  parse_u64, parse_u16, parse_u8, parse_i32_bits, parse_rgb_packed, arg_is_keep, argv,
}
use led_orchestra.Console.Json.{Tuning}
use led_orchestra.Console.Unicast.{add_group_arguments}
use led_orchestra.Console.Calibration.{
  unless_kept, changes_something, tuning_arguments, set_calibration_arguments,
  set_calibration_group_arguments,
}
use led_orchestra.Console.Widths.{
  AllOf, AllOf-bind, AllOf-some, parse_u16-fits, parse_u8-fits, parse_i32_bits-fits,
  parse_rgb_packed-fits,
}
use led_orchestra.Console.Tunings.Fits.{TuningFits, Fits}
use led_orchestra.Console.Arguments.{optional-bind}

-- A tuning that is sent changes something.
abbrev pub Changes : Tuning → Type 0
Changes t = TuningFits t × (changes_something t ≡ true)

unless_kept-Fits :
    (bits : ℕ) (kept : Bool) (parsed : Option ℕ) (value : Option ℕ)
    → ((v : ℕ) → parsed ≡ some v → v < 2 ^ bits)
    → unless_kept kept parsed ≡ some value
    → Fits bits value
unless_kept-Fits bits true parsed none h eq = tt
unless_kept-Fits bits true parsed (some v) h eq = absurd (ground arith)
unless_kept-Fits bits false none value h eq = absurd (ground arith)
unless_kept-Fits bits false (some v) none h eq = tt
unless_kept-Fits bits false (some v) (some w) h eq = h w (ground arith)

only_if-Changes :
    (t : Tuning) → TuningFits t → AllOf Changes (if changes_something t then some t else none)
only_if-Changes t fits = elim (Bool-cases (changes_something t)) [
  | inl e ↦ subst (λ (b : Bool). AllOf Changes (if b then some t else none)) (sym e) (fits, e)
  | inr e ↦ subst (λ (b : Bool). AllOf Changes (if b then some t else none)) (sym e) tt
]

tuning_arguments-Changes :
    (offset brightness palette : List ℕ) (has_correction : Bool) (correction : List ℕ)
    (has_temperature : Bool) (temperature : List ℕ)
    → AllOf Changes (
        tuning_arguments offset brightness palette has_correction correction has_temperature
          temperature)
unfolding tuning_arguments
tuning_arguments-Changes offset brightness palette has_correction correction has_temperature
      temperature =
    let P = Changes in
    AllOf-bind P (unless_kept (arg_is_keep offset) (parse_i32_bits offset)) _ λ o ho.
      AllOf-bind P (unless_kept (arg_is_keep brightness) (parse_u8 brightness)) _ λ b hb.
        AllOf-bind P (unless_kept (arg_is_keep palette) (parse_u8 palette)) _ λ p hp.
          AllOf-bind P
            (unless_kept (not has_correction || arg_is_keep correction)
              (parse_rgb_packed correction))
            _
            λ c hc.
              AllOf-bind P
                (unless_kept (not has_temperature || arg_is_keep temperature)
                  (parse_rgb_packed temperature))
                _
                λ t ht. only_if-Changes _ (
                  unless_kept-Fits 32 _ _ o (parse_i32_bits-fits offset) ho,
                  unless_kept-Fits 8 _ _ b (parse_u8-fits brightness) hb,
                  unless_kept-Fits 8 _ _ p (parse_u8-fits palette) hp,
                  unless_kept-Fits 32 _ _ c (parse_rgb_packed-fits correction) hc,
                  unless_kept-Fits 32 _ _ t (parse_rgb_packed-fits temperature) ht,
                )

abbrev pub SomeChange : ℕ × ℕ × Tuning → Type 0
SomeChange (destination, endpoint, t) = Changes t

pub set_calibration_arguments-Changes :
    (arguments : List (List ℕ)) → AllOf SomeChange (set_calibration_arguments arguments)
unfolding set_calibration_arguments
set_calibration_arguments-Changes arguments =
    let arg = argv arguments in
    AllOf-bind SomeChange (parse_u64 (arg 0)) _ λ destination hd.
      AllOf-bind SomeChange (parse_u16 (arg 1)) _ λ endpoint hp.
        AllOf-bind SomeChange
          (tuning_arguments (arg 2) (arg 3) (arg 4) (leb 6 (length arguments)) (arg 5)
            (leb 7 (length arguments)) (arg 6))
          _
          λ t ht.
            AllOf-some Changes _ t
              (tuning_arguments-Changes (arg 2) (arg 3) (arg 4) (leb 6 (length arguments)) (arg 5)
                (leb 7 (length arguments)) (arg 6))
              ht

pub set_calibration_group_arguments-Changes :
    (group_node : ℕ → ℕ) (arguments : List (List ℕ))
    → AllOf SomeChange (set_calibration_group_arguments group_node arguments)
unfolding set_calibration_group_arguments
set_calibration_group_arguments-Changes group_node arguments =
    let arg = argv arguments in
    AllOf-bind SomeChange (parse_u16 (arg 0)) _ λ group hg.
      AllOf-bind SomeChange
        (tuning_arguments (arg 1) (arg 2) (arg 3) (leb 5 (length arguments)) (arg 4)
          (leb 6 (length arguments)) (arg 5))
        _
        λ t ht.
          AllOf-some Changes _ t
            (tuning_arguments-Changes (arg 1) (arg 2) (arg 3) (leb 5 (length arguments)) (arg 4)
              (leb 6 (length arguments)) (arg 5))
            ht

abbrev pub GroupFits : ℕ × ℕ × ℕ × List ℕ → Type 0
GroupFits (node_id, endpoint, group_id, group_name) = (group_id < 2 ^ 16) × (length group_name ≤ 16)

only_if_short :
    (node_id endpoint group_id : ℕ) (name : List ℕ)
    → group_id < 2 ^ 16
    → AllOf GroupFits
        (if ltb 16 (length name) then none else some (node_id, endpoint, group_id, name))
only_if_short node_id endpoint group_id name small = elim (Bool-cases (ltb 16 (length name))) [
  | inl e ↦
      subst
        (λ (b : Bool).
          AllOf GroupFits (if b then none else some (node_id, endpoint, group_id, name)))
        (sym e) tt
  | inr e ↦
      subst
        (λ (b : Bool).
          AllOf GroupFits (if b then none else some (node_id, endpoint, group_id, name)))
        (sym e) (small, ground arith)
]

pub add_group_arguments-Fit :
    (arguments : List (List ℕ)) → AllOf GroupFits (add_group_arguments arguments)
unfolding add_group_arguments
add_group_arguments-Fit arguments =
    let arg = argv arguments in
    AllOf-bind GroupFits (parse_u64 (arg 0)) _ λ node hn.
      AllOf-bind GroupFits (parse_u16 (arg 1)) _ λ endpoint hp.
        optional-bind (λ g. g < 2 ^ 16) GroupFits (leb 3 (length arguments)) (parse_u16 (arg 2)) 1 _
          (parse_u16-fits (arg 2)) (omega arith) λ group hg. only_if_short node endpoint group _ hg
