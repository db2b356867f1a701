-- ===== src/Scan/Directed.antt =====
-- release/build/arm_2d.cpp: scan_for_pattern_with_directed_motion in a simulation.
use robot_arm_2d.Double.{Double}
use robot_arm_2d.Motion.{Machine, step_n_motion, move_by_command}
use robot_arm_2d.Prelude.{
  ℕ, zero, suc, ◌<◌, ◌≡◌, refl, Bool, true, List, [], ◌∷◌, Option, none, some, ◌>>=◌, arith, length,
  get_elem-below,
}
use robot_arm_2d.Prelude.Int.{ℤ, pos_part}
use robot_arm_2d.Prelude.Results.{Anything, Gives, gives, Gives-bind, Gives-eq, Gives-result}
use robot_arm_2d.Scan.{
  Events, Hunt, acquire, go_to_max_edge_test, directed_loop, go_to_match, half_turn, edge_count,
  scan_for_pattern_with_directed_motion,
}
use robot_arm_2d.Scan.Ready.{
  IsReady, step_n_motion-IsReady, move_by_command-IsReady, rotation_of-IsReady,
}
use robot_arm_2d.Scene.{Scene}

module _ {ℓ} {D : Type ℓ} ⦃d : Double D⦄ where
  -- A search that has found nothing in the stores it began with, and a machine that is ready.
  abbrev pub IsBlind : Events → Scene D → Hunt D → Type ℓ
  IsBlind events scene hunt =
      IsReady hunt.machine
      × (hunt.t_acquired ≡ none)
      × (hunt.scene ≡ scene)
      × (hunt.events ≡ events)

  -- The search as it is before anything has been found.
  abbrev pub blind : Events → Scene D → Machine D → Hunt D
  blind events scene m = record {
    t_acquired = none;
    hat = (d.lit 0 0, d.lit 0 0);
    events = events;
    scene = scene;
    machine = m;
  }

  -- The radii of the rounds: each is the one before it with 1 added.
  abbrev pub radii : D → ℕ → List D
  radii r zero = []
  radii r (suc n) = r ∷ radii (d.add r (d.lit 1 0)) n

  -- The motions of the rounds: to each radius, and half a turn of the canister.
  abbrev pub edge_rounds : ℕ → ℤ → List D → Machine D → Option (Machine D)
  edge_rounds fuel base_steps [] m = some m
  edge_rounds fuel base_steps (r ∷ rs) m = move_by_command fuel (d.lit 0 0) r m >>= λ m₁.
      (step_n_motion 1 base_steps m₁ >>= edge_rounds fuel base_steps rs)

  -- A search in a simulation looks at nothing.
  acquire-simulated :
      (noisy : Bool) (motor : ℕ) (hunt : Hunt D)
      → hunt.machine.use_simulations ≡ true
      → acquire noisy motor hunt ≡ some hunt
  acquire-simulated noisy motor hunt e = unfold acquire in rw e refl

  directed_loop-rounds :
      (fuel rounds : ℕ) (r : D) (base_steps : ℤ) (events : Events) (scene : Scene D) (m : Machine D)
      → IsReady m
      → (edge : Machine D) × IsReady edge
        × (edge_rounds fuel base_steps (radii r rounds) m ≡ some edge)
        × (directed_loop fuel rounds r base_steps (blind events scene m)
            ≡ some (blind events scene edge))
  unfolding directed_loop go_to_max_edge_test
  directed_loop-rounds fuel zero r base_steps events scene m ready = (m, ready, refl, refl)
  directed_loop-rounds fuel (suc rounds) r base_steps events scene m ready =
      let (m₁, e₁, ready₁) = Gives-result (move_by_command-IsReady fuel (d.lit 0 0) r m ready) in
      let (m₂, e₂, ready₂) =
        Gives-result (step_n_motion-IsReady 1 base_steps m₁ (omega arith) (ready₁.0)) in
      let (edge, ready', e, f) =
        directed_loop-rounds fuel rounds (d.add r (d.lit 1 0)) base_steps events scene m₂ ready₂ in
      (
        edge,
        ready',
        rw e₁ (rw e₂ e),
        rw e₁ (rw e₂ (rw (acquire-simulated true 1 (blind events scene m₂) (ready₂.0)) f)),
      )

  go_to_match-IsBlind :
      (fuel : ℕ) (events : Events) (scene : Scene D) (hunt : Hunt D)
      → IsBlind events scene hunt
      → Gives (IsBlind events scene) (go_to_match fuel hunt)
  go_to_match-IsBlind fuel events scene hunt (ready, none_yet, same, left) =
      unfold go_to_match in
      Gives-bind
        (Gives-eq {P = Anything} (get_elem-below hunt.machine.motors 0 (omega (arith, ready.1))).1
          tt)
        (λ md₁ _.
          Gives-bind (Gives-eq {P = Anything} (get_elem-below hunt.machine.motors 1 (ready.1)).1 tt)
            (λ md₂ _.
              Gives-bind (rotation_of-IsReady 0 hunt.machine (omega arith) ready) (λ r₁ ready₁.
                Gives-bind (rotation_of-IsReady 1 r₁.1 (omega arith) ready₁) (λ r₂ ready₂.
                  Gives-bind (move_by_command-IsReady fuel _ _ r₂.1 ready₂)
                    (λ m' ready'. gives (ready'.0, none_yet, same, left))))))

  -- In a simulation with the two motors a scan with directed motion comes to its end. For each
  -- radius, from the start radius on in steps of 1 and as many as the whole part of the distance
  -- from it to the largest one, it moves to the place `(0,radius)` and turns the canister by half a
  -- turn, and then it goes on as behind the last round without a match. It finds nothing, and
  -- leaves the stores and the reports as they are.
  pub scan_directed_total :
      (fuel : ℕ) (events : Events) (scene : Scene D) (m : Machine D)
      → m.use_simulations ≡ true
      → 1 < length m.motors
      → (edge : Machine D) × (hunt : Hunt D) × (edge_rounds fuel
            (half_turn m)
            (radii m.arm.start_radius (pos_part (edge_count m)))
            m
          ≡ some edge)
        × (go_to_match fuel (blind events scene edge) ≡ some hunt)
        × (scan_for_pattern_with_directed_motion fuel events scene m ≡ some hunt)
        × IsBlind events scene hunt
  unfolding scan_for_pattern_with_directed_motion
  scan_directed_total fuel events scene m sim two =
      let (edge, ready, e, f) =
        directed_loop-rounds fuel (pos_part (edge_count m)) m.arm.start_radius (half_turn m) events
          scene m (sim, two) in
      let (hunt, g, h) = Gives-result (
        go_to_match-IsBlind fuel events scene (blind events scene edge)
          (ready, refl, refl, refl)) in
      (edge, hunt, e, g, rw f g, h)

  pub scan_directed-IsBlind :
      (fuel : ℕ) (events : Events) (scene : Scene D) (m : Machine D)
      → IsReady m
      → Gives (IsBlind events scene) (scan_for_pattern_with_directed_motion fuel events scene m)
  scan_directed-IsBlind fuel events scene m (sim, two) =
      let (_, hunt, _, _, e, h) = scan_directed_total fuel events scene m sim two in Gives-eq e h
