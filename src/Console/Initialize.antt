-- ===== src/Console/Initialize.antt =====
-- release/build/arm_2d.cpp: initialize_all and motor_driver_port_initialization.
use robot_arm_2d.Aim.{no_error}
use robot_arm_2d.Arm.{
  ArmSize, new_arm, set_mininum_radius, canister_current_steps_str, elbow_current_steps_str,
}
use robot_arm_2d.Config.{Params, read_parameters}
use robot_arm_2d.Console.Globals.{World}
use robot_arm_2d.Double.{Double}
use robot_arm_2d.Motor.Serial.{Port}
use robot_arm_2d.Prelude.{
  Bool, true, false, List, [], Option, none, some, ◌>>=◌, Bytes, codes, if◌then◌else◌, equal,
}
use robot_arm_2d.Prelude.Int.{ℤ}
use robot_arm_2d.Startup.{no_stores, init_motor_descriptions, init_sensor_descriptions}
use robot_arm_2d.StdMap
use robot_arm_2d.Text.Case.{lower_case}

-- What the program finds when it starts: the parameter file, the serial port that is opened, if it can
-- be, the values that the memory holds where a constructor sets none, and the typed words.
pub record Surroundings {ℓ} (D : Type ℓ) : Type ℓ where
  pub file : Option Bytes
  pub port : Option Port
  pub junk : D
  pub junk_steps : ℤ
  pub typed : List Bytes

-- `sg_server_parameters[key]`
abbrev pub read_key : Bytes → Params → Bytes × Params
read_key key params = StdMap.at key [] params

-- The two switches of a simulation: SIMULATION in any case of letters, TCP_WITH_SIMULATION as it is.
unfoldable pub simulation_of : Params → Bool × Bool × Params
unfolding lower_case
simulation_of params =
    let sim_state = read_key (codes "SIMULATION") params in
    let tcp = read_key (codes "TCP_WITH_SIMULATION") sim_state.1 in
    if equal (lower_case sim_state.0) (codes "yes")
    then (true, equal tcp.0 (codes "yes"), tcp.1)
    else (false, false, sim_state.1)

-- `motor_driver_port_initialization`: a simulation opens nothing. `none` stands for `exit(1)` where
-- the port cannot be opened. The wait for its first byte and what it holds then are left out: `port`
-- is the line behind them.
unfoldable pub motor_driver_port_initialization :
    Bool → Option Port → Params → Option (Port × Params)
motor_driver_port_initialization true port params =
    some (record { written = []; polls = [] }, params)
motor_driver_port_initialization false none params = none
motor_driver_port_initialization false (some port) params =
    some (port, (read_key (codes "port_ready_delay") params).1)

module _ {ℓ} {D : Type ℓ} ⦃d : Double D⦄ where
  -- The sizes of the arm, and the least radius. The step counts are cut to whole numbers.
  unfoldable pub size_of : Params → ArmSize D × D × Params
  size_of params =
      let radius = read_key (codes "CANISTER_RADIUS") params in
      let first = read_key (codes "ARM_1_length") radius.1 in
      let second = read_key (codes "ARM_2_length") first.1 in
      let canister = read_key (codes "CANISTER_STEP") second.1 in
      let elbow = read_key (codes "ELBOW_STEP") canister.1 in
      let least = read_key (codes "MIN_RADIUS") elbow.1 in
      (
        record {
          arm_1_length = d.atof first.0;
          arm_2_length = d.atof second.0;
          canister_radius = d.atof radius.0;
          canister_step = d.of_int (d.to_int (d.atof canister.0));
          elbow_step = d.of_int (d.to_int (d.atof elbow.0));
        },
        d.atof least.0,
        least.1,
      )

  -- `initialize_all`, with `false` where nothing is set up; the initialization of the port gives no
  -- other answer than EXIT_SUCCESS. MOTOR_COUNT stays in the parameters when it has been read.
  unfoldable pub initialize_all : Surroundings D → Option (World D)
  unfolding simulation_of motor_driver_port_initialization size_of
  initialize_all around = read_parameters around.file true [] >>= λ params.
      (let sim = simulation_of params in
        motor_driver_port_initialization sim.0 around.port sim.2 >>= λ opened.
        (let sized = size_of opened.1 in
          let arm =
            set_mininum_radius sized.0 sized.1 (new_arm sized.0 around.junk around.junk_steps) in
          let canister = canister_current_steps_str arm in
          let elbow = elbow_current_steps_str arm in
          init_motor_descriptions sim.0 canister elbow sized.2 0 opened.0 >>= λ motors.
          (init_sensor_descriptions around.junk canister elbow
              (no_stores (read_key (codes "MOTOR_COUNT") sized.2).1)
            >>= λ scene. some (record {
              scene = scene;
              machine = record {
                use_simulations = sim.0;
                motors = motors.1;
                port = motors.2;
                size = sized.0;
                arm = arm;
                current_x = d.lit 0 0;
                current_y = d.lit 0 0;
              };
              errors = no_error;
              reporting = false;
              tcp_with_simulation = sim.1;
              line = record { trials = 30; start_x = d.lit 0 0; delta_x = d.lit 0 0 };
              input = around.typed;
            }))))
