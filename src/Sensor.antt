-- ===== src/Sensor.antt =====
-- release/build/arm_configuration.h: SensorController; release/build/arm_2d.cpp: setup_port;
-- release/build/client.cpp: tcp_client_operation.
use robot_arm_2d.Double.{Double}
use robot_arm_2d.Motor.{ParameterSink, new_sink, parameter, set_descriptor}
use robot_arm_2d.Prelude.{
  ℕ, zero, suc, [], ◌+◌, ◌%◌, ◌^◌, Option, some, Bytes, codes, if◌then◌else◌, equal,
}
use robot_arm_2d.StdMap.{StdMap, put}
use robot_arm_2d.Stream.{WriterThread, new_thread}
use robot_arm_2d.Text.Decimal.{atoi, format_unsigned}
use robot_arm_2d.Text.Unsigned.{to_unsigned}

pub record SensorController {ℓ} (D : Type ℓ) : Type ℓ where
  pub sink : ParameterSink
  pub open sink use *
  pub product_model : Bytes
  pub address : Bytes
  pub connect : Bytes
  pub base_port : Bytes
  pub port_count : ℕ
  -- the threads that read the ports, by the port's number
  pub open_ports : StdMap WriterThread
  pub scale_x : D
  pub scale_y : D
  pub fov_w : D
  pub fov_h : D
  pub fov_center_x : D
  pub fov_center_y : D

-- `tcp_client_operation`: the thread of a port is made on the sensor's parameters. Its constructor
-- looks `address` and `port` up there, which leaves an empty value behind where one is missing. The
-- wait until the camera takes the connection is left out.
unfoldable pub tcp_client_operation : ParameterSink → ParameterSink × WriterThread
unfolding parameter
tcp_client_operation sink =
    let address = parameter (codes "address") sink in
    let port = parameter (codes "port") address.1 in (port.1, new_thread)

module _ {ℓ} {D : Type ℓ} where
  -- `setup_port`
  unfoldable pub setup_port : ℕ → SensorController D → SensorController D
  unfolding tcp_client_operation
  setup_port port s =
      let made = tcp_client_operation s.sink in
      record s { sink = made.0; open_ports = put (format_unsigned port) made.1 s.open_ports }

  -- `for ( int i = 0; i < _port_count; i++ ) setup_port(base_port + i)`
  unfoldable pub setup_ports : ℕ → ℕ → ℕ → SensorController D → SensorController D
  unfolding setup_port
  setup_ports zero i base_port s = s
  setup_ports (suc left) i base_port s =
      setup_ports left (suc i) base_port (setup_port ((base_port + i) % 2 ^ 32) s)

  -- The branch `_connect == "multiport"`.
  unfoldable pub connect_ports : SensorController D → SensorController D
  unfolding setup_ports parameter
  connect_ports s =
      let counted = parameter (codes "port_count") s.sink in
      let count = to_unsigned (atoi counted.0) in
      let with_count = record s { sink = counted.1; port_count = count } in
      if equal s.connect (codes "multiport")
      then setup_ports count 0 (to_unsigned (atoi s.base_port)) with_count
      else s

module _ {ℓ} {D : Type ℓ} ⦃d : Double D⦄ where
  -- The constructor. It leaves the field of view as it is in the memory, `junk`.
  unfoldable pub new_sensor : D → SensorController D
  new_sensor junk = record {
    sink = new_sink;
    product_model = [];
    address = [];
    connect = [];
    base_port = [];
    port_count = 1;
    open_ports = [];
    scale_x = d.lit 0 0;
    scale_y = d.lit 0 0;
    fov_w = junk;
    fov_h = junk;
    fov_center_x = junk;
    fov_center_y = junk;
  }

  -- The four texts.
  unfoldable pub sensor_texts : SensorController D → SensorController D
  unfolding parameter
  sensor_texts s =
      let m = parameter (codes "model") s.sink in
      let a = parameter (codes "address") m.1 in
      let c = parameter (codes "connect") a.1 in
      let b = parameter (codes "base_port") c.1 in
      record s { sink = b.1; product_model = m.0; address = a.0; connect = c.0; base_port = b.0 }

  -- The scale and the field of view.
  unfoldable pub sensor_scale : SensorController D → SensorController D
  unfolding parameter
  sensor_scale s =
      let x = parameter (codes "scale_x") s.sink in
      let y = parameter (codes "scale_y") x.1 in
      let w = parameter (codes "fov_w") y.1 in
      let h = parameter (codes "fov_h") w.1 in
      record s {
        sink = h.1;
        scale_x = d.div (d.atof x.0) (d.atof w.0);
        scale_y = d.div (d.atof y.0) (d.atof h.0);
        fov_w = d.atof w.0;
        fov_h = d.atof h.0;
        fov_center_x = d.div (d.atof w.0) (d.lit 2 0);
        fov_center_y = d.div (d.atof h.0) (d.lit 2 0);
      }

  -- `specialization`
  unfoldable pub specialize_sensor : SensorController D → SensorController D
  unfolding sensor_texts connect_ports sensor_scale
  specialize_sensor s = sensor_scale (connect_ports (sensor_texts s))

  -- `set_descriptor` of a sensor.
  unfoldable pub describe_sensor : Bytes → SensorController D → Option (SensorController D)
  unfolding specialize_sensor
  describe_sensor goal_description s =
      set_descriptor (λ k. some (specialize_sensor (record s { sink = k }))) goal_description s.sink
