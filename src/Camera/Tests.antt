-- ===== src/Camera/Tests.antt =====
-- Two messages of a camera with one target.
use robot_arm_2d.Camera.{camera}
use robot_arm_2d.Camera.Laws.{fields, camera-messages, camera-report}
use robot_arm_2d.Double.Naturals.{naturals}
use robot_arm_2d.Pattern.{deliver}
use robot_arm_2d.Prelude.{
  ℕ, ◌≡◌, refl, true, [], ◌∷◌, ◌++◌, map, some, arith, Bytes, codes, get_elem?,
}
use robot_arm_2d.Scene.{Scene}
use robot_arm_2d.StdMap.{find}
use robot_arm_2d.Stream.{is_header, new_thread}
use robot_arm_2d.Stream.Messages.{Message, IsMessage, text_of, entry_of, holding}
use robot_arm_2d.Target.{Target, new_target, to_radians}

abbrev seen_at : Bytes → Message
seen_at x = (codes "MT_A", fields x (codes "4") (codes "0") (codes "9"))

abbrev first : Message
first = seen_at (codes "3")

abbrev second : Message
second = seen_at (codes "7")

are_messages : IsMessage first × IsMessage second
unfolding is_header
are_messages = (
  record {
    headed = refl;
    plain = (refl, (refl, (refl, (refl, tt))));
    items = (
      ((refl, refl), omega arith),
      (
        ((refl, refl), omega arith),
        (
          ((refl, refl), omega arith),
          (((refl, refl), omega arith), (((refl, refl), omega arith), tt)),
        ),
      ),
    );
    full = cc;
    some_field = cc;
  },
  record {
    headed = refl;
    plain = (refl, (refl, (refl, (refl, tt))));
    items = (
      ((refl, refl), omega arith),
      (
        ((refl, refl), omega arith),
        (
          ((refl, refl), omega arith),
          (((refl, refl), omega arith), (((refl, refl), omega arith), tt)),
        ),
      ),
    );
    full = cc;
    some_field = cc;
  },
)

abbrev scene : Scene ℕ
scene = record {
  server_parameters = [];
  sensor_array = [];
  sensor_map = [];
  targets = new_target 0 ∷ [];
  storage = 0 ∷ [];
  travel_map = [];
  target_map = (codes "MT_A", some 0) ∷ [];
}

camera-messages_example :
    camera new_thread (map text_of ((first ∷ []) ++ second ∷ [])) scene
    ≡ some (holding (text_of second) new_thread, deliver (map entry_of (first ∷ [])) scene)
camera-messages_example =
    camera-messages (first ∷ []) second scene (are_messages.0, tt) are_messages.1

known : find (codes "MT_A") scene.target_map ≡ some (some 0)
unfolding find
known = refl

camera-report_example :
    (scene' : Scene ℕ) × (t' : Target ℕ) × (camera new_thread
        (text_of first ∷ text_of second ∷ [])
        scene
      ≡ some (holding (text_of second) new_thread, scene'))
    × (get_elem? scene'.targets 0 ≡ some t')
    × (t'.target_present ≡ true)
    × (t'.fov_x ≡ naturals.atof (codes "3"))
    × (t'.fov_y ≡ naturals.atof (codes "4"))
    × (t'.fov_theta ≡ to_radians (naturals.atof (codes "0")))
    × (t'.fov_match ≡ naturals.atof (codes "9"))
camera-report_example =
    camera-report (codes "MT_A") (codes "3") (codes "4") (codes "0") (codes "9") second scene 0
      (new_target 0) are_messages.0 are_messages.1 (omega arith) (omega arith) (cc) known refl
