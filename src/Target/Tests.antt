-- ===== src/Target/Tests.antt =====
-- data_test on a report, and on a report of a lost target.
use robot_arm_2d.Double.Naturals.{naturals}
use robot_arm_2d.Prelude.{ℕ, ◌≡◌, refl, true, false, ◌∷◌, ◌++◌, codes, arith}
use robot_arm_2d.Target.{Target, new_target, data_test, to_radians}
use robot_arm_2d.Target.Report.Texts.{report}
use robot_arm_2d.Target.Laws.{data_test-report, data_test-lost}

abbrev target : Target ℕ
target = new_target 7

place : (data_test (codes "(12,5),90,80") target).fov_x ≡ 12
unfolding data_test robot_arm_2d.Target.measurement robot_arm_2d.StdMap.at new_target
    robot_arm_2d.Text.Decimal.atoi robot_arm_2d.Text.Trim.skip_white robot_arm_2d.Text.Find.before
    robot_arm_2d.Text.Find.behind
place = refl

data_test-report_example :
    ((data_test (report (codes "1") (codes "2") (codes "9") (codes "8")) target).target_present
      ≡ true)
    × ((data_test (report (codes "1") (codes "2") (codes "9") (codes "8")) target).fov_x
        ≡ naturals.atof (codes "1"))
    × ((data_test (report (codes "1") (codes "2") (codes "9") (codes "8")) target).fov_y
        ≡ naturals.atof (codes "2"))
    × ((data_test (report (codes "1") (codes "2") (codes "9") (codes "8")) target).fov_theta
        ≡ to_radians (naturals.atof (codes "9")))
    × ((data_test (report (codes "1") (codes "2") (codes "9") (codes "8")) target).fov_match
        ≡ naturals.atof (codes "8"))
data_test-report_example =
    data_test-report (codes "1") (codes "2") (codes "9") (codes "8") target (omega arith, tt)
      (omega arith, tt) (omega arith, tt) (omega arith, tt) ((refl, refl), (omega arith, tt)) (cc)
      ((refl, refl), (omega arith, tt))

data_test-lost_example :
    data_test (codes "(" ++ b',' ∷ b',' ∷ codes ",") target
    ≡ record target { target_present = false }
data_test-lost_example = data_test-lost (codes "(") (codes ",") target
