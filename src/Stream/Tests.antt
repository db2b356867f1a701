-- ===== src/Stream/Tests.antt =====
-- uiinterfacethread.cpp: records over the texts of a socket.
use robot_arm_2d.Prelude.{◌≡◌, refl, true, false, some, List, [], ◌∷◌, Bytes, codes}
use robot_arm_2d.Stream.{WriterThread, new_thread, run, is_header, emit_record}
use robot_arm_2d.Stream.Records.{IsRun, run-IsRun}

-- A record that is cut in two by the socket, and the beginning of the next one.
abbrev texts : List Bytes
texts = codes "x,ta_1,2," ∷ codes "3,tb_1" ∷ []

two_records :
    run new_thread texts
    ≡ some (
      record { running = false; previous_partial = codes "tb_1"; found_header = true },
      codes "ta_1,2,3" ∷ [],
    )
unfolding run robot_arm_2d.Stream.take_data robot_arm_2d.Stream.token_loop
    robot_arm_2d.Stream.drop_comma robot_arm_2d.Text.Trim.trim_string robot_arm_2d.Text.Trim.trim
    robot_arm_2d.Stream.next_token robot_arm_2d.Stream.take_token is_header
two_records = refl

record_key : emit_record (codes "ta_1,2,3") ≡ (codes "ta_1", codes "2,3")
unfolding emit_record
record_key = refl

run-IsRun_example : IsRun texts (run new_thread texts)
run-IsRun_example = run-IsRun texts
