-- ===== src/Lib.antt =====
-- A library about Robot-Arm-2D, the control program of a robot arm that moves in a plane: it
-- reads a parameter file, drives motors over serial lines, receives what a camera sees over a
-- socket, and moves the arm to the targets found there.
--
-- Text and its children: release/common/static_utils.h, the text routines; Text/Case, Text/Hex,
-- Text/Edit and Text/Words are its conversions of letters and digits, its replacements and its
-- parts of words, Text/Pages its pages of lines, Text/Sections and Text/Attributes its fields
-- between tags, Text/Dates the dates of e-mails, Text/Implode the lists of texts, Text/Halves and
-- Text/Copies more ways to divide a text, Text/Skips and Text/Letters its pointers and letters,
-- and Text/Bits the masks. A C string is the list of its bytes up to the NUL, a pointer into it
-- is the rest of the list, and a scan that writes a NUL at the end is a cut of the list.
--
-- Config: read_parameters of release/common/parameters.h. StdMap is the std::map that it fills,
-- with the keys in ascending order.
--
-- Stream: the writer thread of release/build/uiinterfacethread.cpp as a machine over the texts
-- that arrive. Stream/Records says which records it must give. Camera: that thread down to the
-- targets. Ui: the reader thread with the queue of commands, and the messages for the panel; a
-- result of mq_receive or mq_timedsend is an argument. Ui/Queue: how the queue is opened.
--
-- Motor: ParameterSink and MotorDriver of release/build/arm_configuration.h, and run_commands2 of
-- release/build/serialback.xpp. Motor/Commands: the other routines of serialback.xpp.
-- Motor/Serial is the serial line: the texts that were written, and what each later look at the
-- line finds.
--
-- Sensor and Target: SensorController and Target of release/build/arm_configuration.h, with
-- tcp_client_operation of release/build/client.cpp, and data_test and parse_data of
-- release/build/arm_2d.cpp. Target/Report takes a report apart, and Target/Specialize reads the
-- definition of a target.
--
-- Scene: the stores of targets and sensors of release/build/arm_2d.cpp, with
-- point_in_time_best_match, emit_to_target and the target lists. A pointer to a target is its
-- number among the targets that were made, so that two places of a store can hold one target.
--
-- Arm: Arm_Configuration of release/build/m_commands.xpp. Motion: step_n_motion, move_by_command
-- and the motions made of them, of release/build/arm_2d.cpp, on a machine of motors, line and
-- arm. Pattern: locate_in_cell, to_target and the motions to patterns, where the reports that
-- arrive during a wait are a list of events. Pattern/Reach has the stores as a state machine,
-- whose steps are the threads' reports and the commands. Startup: init_motor_descriptions and
-- init_sensor_descriptions.
--
-- Aim: target_to_arm and target_to_arm_quiet. Scan and its children: the scans for a pattern and
-- the way home. Console and its children: the commands on the terminal, the start of the program
-- and main. The terminal is a list of typed words, and each round of the command loop has the
-- reports that come in meanwhile.
--
-- Transform: release/build/transformations.h. Message: OutputMessage of
-- release/common/parameters.h with release/build/program_parameters.cpp. Text/QuasiUrl:
-- quasi_url_encode and quasi_url_decode of release/build/test_control.h.
--
-- Double is the type double with its operations, a parameter of the library: the checker has no
-- floating point numbers.
--
-- Loops that are not structural take fuel, and return none when it runs out. The fuel is the
-- length of the text for the text routines, which take at least one character in each round,
-- twice the length for mark_section, and the number of bytes that are still to arrive, with the
-- tries, for the responses of a motor; the theorems show that it is enough. The waits for the end
-- of a motion may last for ever, since they end when the motors say so: their fuel is an
-- argument, and so is that of split_string_end and extract_xml_attribute, whose loops need not
-- end. A read past the end of a buffer or of a list, which has no defined result, is none as
-- well. Fields that a constructor does not set are arguments of the model's constructor.
--
-- Not modelled: sockets, threads and locks, the terminal, files and the clock, most prints, the
-- car simulation of release/build/test_control.cpp, and those routines of static_utils.h, none of
-- which the program uses, that read and write files or the clock, the templates token_list and
-- mark_section_same, and a few on quotes and punctuation (line_factor_quotes, pack_spaces).
pub mod Aim
pub mod Arm
pub mod Camera
pub mod Config
pub mod Console
pub mod Double
pub mod Message
pub mod Motion
pub mod Motor
pub mod Pattern
pub mod Prelude
pub mod Scan
pub mod Scene
pub mod Sensor
pub mod Startup
pub mod StdMap
pub mod Stream
pub mod Target
pub mod Text
pub mod Transform
pub mod Ui
