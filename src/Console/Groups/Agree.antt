-- ===== src/Console/Groups/Agree.antt =====
-- The commands to a group and the commands to one node.
use led_orchestra.Base.{
  ℕ, suc, ◌+◌, ◌≡◌, refl, sym, ap, ◌∙◌, Bool, true, false, Option, none, some, List, [], ◌∷◌, arith,
  ltb, leb, ◌==◌, ◌>>=◌, length,
}
use led_orchestra.Base.Words.{u32, u64}
use led_orchestra.Scene.{Scene}
use led_orchestra.Console.{
  parse_u64, parse_u32, parse_u16, parse_u8, parse_rgb, or_invalid_arg, optional,
}
use led_orchestra.Console.Unicast.{
  scene_arguments, set_scene_arguments, send_scene, set_scene_handler, sync_clock_arguments,
  sync_clock_handler,
}
use led_orchestra.Console.Groups.{
  set_scene_group_arguments, set_scene_group_handler, sync_clock_group_arguments,
  sync_clock_group_handler, scheduled_scene_group_arguments, scheduled_scene_group_handler,
}
use led_orchestra.Console.Tunings.{>>=-assoc, >>=-same}
use led_orchestra.Console.Calibration.{
  set_calibration_arguments, set_calibration_handler, set_calibration_group_arguments,
  set_calibration_group_handler,
}

leb-suc : (a b : ℕ) → leb (suc a) (suc b) ≡ leb a b
leb-suc a b = ground arith

ltb-suc : (a b : ℕ) → ltb (suc a) (suc b) ≡ ltb a b
ltb-suc a b = ground arith

==-suc : (a b : ℕ) → (suc a == suc b) ≡ (a == b)
==-suc a b = ground arith

module _ (group_node : ℕ → ℕ) (group node endpoint : List ℕ) (id : ℕ)
    (to_group : parse_u16 group ≡ some id) (to_node : parse_u64 node ≡ some (group_node id))
    (on_one : parse_u16 endpoint ≡ some 1) where
  same_scene :
      (rest : List (List ℕ)) (sequence : ℕ)
      → set_scene_group_arguments group_node (group ∷ rest) sequence
        ≡ set_scene_arguments (node ∷ (endpoint ∷ rest)) sequence
  unfolding set_scene_group_arguments set_scene_arguments
  same_scene rest sequence =
      rw (to_group, to_node, on_one, leb-suc 6 (suc (length rest)), leb-suc 7 (suc (length rest)))
        refl

  same_clock :
      (now_ms : ℕ) (rest : List (List ℕ))
      → sync_clock_group_arguments group_node now_ms (group ∷ rest)
        ≡ sync_clock_arguments now_ms (node ∷ (endpoint ∷ rest))
  unfolding sync_clock_group_arguments sync_clock_arguments
  same_clock now_ms rest = rw (to_group, to_node, on_one, ==-suc (suc (length rest)) 2) refl

  same_tuning :
      (rest : List (List ℕ))
      → set_calibration_group_arguments group_node (group ∷ rest)
        ≡ set_calibration_arguments (node ∷ (endpoint ∷ rest))
  unfolding set_calibration_group_arguments set_calibration_arguments
  same_tuning rest =
      rw (to_group, to_node, on_one, leb-suc 5 (suc (length rest)), leb-suc 6 (suc (length rest)))
        refl

  -- The commands of scenes, clocks and calibrations to a group are those to one node whose id is read as the group's node id and
  -- whose endpoint is read as 1: for all further arguments they send the same, or fail in the same way, and
  -- count the same sequence numbers.
  pub groups_agree :
      (now_ms : ℕ) (rest : List (List ℕ)) (sequence : ℕ)
      → (set_scene_group_handler group_node (group ∷ rest) sequence
          ≡ set_scene_handler (node ∷ (endpoint ∷ rest)) sequence)
        × (sync_clock_group_handler group_node now_ms (group ∷ rest)
            ≡ sync_clock_handler now_ms (node ∷ (endpoint ∷ rest)))
        × (set_calibration_group_handler group_node (group ∷ rest)
            ≡ set_calibration_handler (node ∷ (endpoint ∷ rest)))
  unfolding set_scene_group_handler set_scene_handler sync_clock_group_handler sync_clock_handler
      set_calibration_group_handler set_calibration_handler
  groups_agree now_ms rest sequence =
      let n = suc (length rest) in
      (
        rw (same_scene rest sequence, ltb-suc n 5, ltb-suc 7 n) refl,
        rw (same_clock now_ms rest, ltb-suc n 1, ltb-suc 2 n) refl,
        rw (same_tuning rest, ltb-suc n 4, ltb-suc 6 n) refl,
      )

>>=-through :
    {A B C : Type 0} (m : Option A) (f : A → Option C) (g : A → Option B) (h : B → Option C)
    → ((a : A) → f a ≡ (g a >>= h))
    → (m >>= f) ≡ ((m >>= g) >>= h)
>>=-through none f g h same = refl
>>=-through (some a) f g h same = same a

-- The start of a scene is what is typed, or what it is set to later.
scene_arguments-start :
    (effect rgb speed brightness : List ℕ) (has_sequence : Bool) (number : List ℕ) (default : ℕ)
    (start : List ℕ) (time : ℕ)
    → parse_u64 start ≡ some time
    → scene_arguments effect rgb speed brightness has_sequence number default true start ≡ (
        scene_arguments effect rgb speed brightness has_sequence number default false [] >>= λ s.
        some (record s { scheduled_start_ms = time }))
unfolding scene_arguments
scene_arguments-start effect rgb speed brightness has_sequence number default start time due =
    >>=-through (parse_u8 effect) _ _ _ λ e. >>=-through (parse_rgb rgb) _ _ _ λ c.
      >>=-through (parse_u8 speed) _ _ _ λ s.
        >>=-through (parse_u8 brightness) _ _ _
          λ b. >>=-through (optional has_sequence (parse_u32 number) default) _ _ _ λ q. rw due refl

module _ (group_node : ℕ → ℕ) (now_ms delay_ms : ℕ)
    (group delay effect rgb speed brightness number start : List ℕ) (sequence : ℕ)
    (typed : parse_u64 delay ≡ some delay_ms)
    (due : parse_u64 start ≡ some (u64 (now_ms + delay_ms))) where
  same_delayed :
      scheduled_scene_group_arguments group_node now_ms
        (group ∷ (delay ∷ (effect ∷ (rgb ∷ (speed ∷ (brightness ∷ (number ∷ [])))))))
        sequence
      ≡ set_scene_group_arguments group_node
          (group ∷ (effect ∷ (rgb ∷ (speed ∷ (brightness ∷ (number ∷ (start ∷ [])))))))
          sequence
  unfolding scheduled_scene_group_arguments set_scene_group_arguments
  same_delayed =
      let read = scene_arguments effect rgb speed brightness true number sequence in
      rw typed (
        >>=-same (parse_u16 group) _ _ λ id. sym (
          ap (λ (m : Option Scene). m >>= λ s. some (group_node id, 1, s))
            (scene_arguments-start effect rgb speed brightness true number sequence start
              (u64 (now_ms + delay_ms)) due)
          ∙ >>=-assoc (read false []) _ _))

  -- A scene that is scheduled after a delay is the scene of the group whose start is typed as the time at which the delay
  -- is over, for all texts of the sequence number and of the other arguments.
  pub scheduled_scene_group_handler_lem :
      scheduled_scene_group_handler group_node now_ms
        (group ∷ (delay ∷ (effect ∷ (rgb ∷ (speed ∷ (brightness ∷ (number ∷ [])))))))
        sequence
      ≡ set_scene_group_handler group_node
          (group ∷ (effect ∷ (rgb ∷ (speed ∷ (brightness ∷ (number ∷ (start ∷ [])))))))
          sequence
  unfolding scheduled_scene_group_handler set_scene_group_handler
  scheduled_scene_group_handler_lem =
      ap (λ (o : Option (ℕ × ℕ × Scene)). (or_invalid_arg send_scene o, u32 (sequence + 1)))
        same_delayed
