-- ===== src/Target/Laws.antt =====
-- What data_test reads from a report of the camera, `(x,y),theta,match`.
use robot_arm_2d.Double.{Double}
use robot_arm_2d.Prelude.{
  ◌≡◌, ◌≢◌, refl, ap, true, false, inl, inr, [], ◌∷◌, ◌++◌, Bytes, codes, Lacks, equal,
  if◌then◌else◌, Bool-cases,
}
use robot_arm_2d.StdMap.{put}
use robot_arm_2d.StdMap.Laws.{find-put, at-value}
use robot_arm_2d.Target.{
  Target, data_test, to_radians, measurement, measure, read_report, use_report,
}
use robot_arm_2d.Text.Split.Laws.{IsItem}
use robot_arm_2d.Target.Report.Texts.{
  report, has_gap-report, point_text-report, behind_point-report, split_string-angles,
  before-append, behind-append, has_gap-comma_twice,
}

module _ {ℓ} {D : Type ℓ} ⦃d : Double D⦄ where
  measurement-measure :
      (key other text : Bytes) (t : Target D)
      → measurement key (measure other text t)
        ≡ (if equal other key then d.atof text else measurement key t)
  unfolding measurement measure
  measurement-measure key other text t =
      rw
        (
          at-value key (d.lit 0 0) (put other (d.atof text) t.measurements),
          at-value key (d.lit 0 0) t.measurements,
          find-put other key (d.atof text) t.measurements,
        )
        (elim (Bool-cases (equal other key)) [ inl e ↦ rw e refl | inr e ↦ rw e refl ])

  read_report-report :
      (x y theta match : Bytes) (t : Target D)
      → Lacks b',' x
      → Lacks b')' x
      → Lacks b',' y
      → Lacks b')' y
      → IsItem b',' theta
      → theta ≢ []
      → IsItem b',' match
      → read_report (report x y theta match) t
        ≡ measure
            (codes "MATCH")
            match
            (measure (codes "THETA") theta (measure (codes "Y") y (measure (codes "X") x t)))
  unfolding read_report
  read_report-report x y theta match t hx hx' hy hy' ht ne hm =
      rw
        (
          point_text-report x y _ hx' hy',
          behind_point-report x y _ hx hy,
          split_string-angles theta match ht ne hm,
          before-append b',' x y hx,
          behind-append b',' x y hx,
        )
        refl

  data_test-eq :
      (x y theta match : Bytes) (t : Target D)
      → Lacks b',' x
      → Lacks b')' x
      → Lacks b',' y
      → Lacks b')' y
      → IsItem b',' theta
      → theta ≢ []
      → IsItem b',' match
      → data_test (report x y theta match) t
        ≡ use_report (
            measure (codes "MATCH") match (
              measure (codes "THETA") theta (
                measure
                  (codes "Y")
                  y
                  (measure (codes "X") x (record t { target_present = true })))))
  unfolding data_test
  data_test-eq x y theta match t hx hx' hy hy' ht ne hm =
      rw (has_gap-report x y theta match hx hy ht.1 ne hm.1) (
        ap use_report (
          read_report-report x y theta match (record t { target_present = true }) hx hx' hy hy' ht
            ne hm))

  -- On a report `(x,y),theta,match` the target is present, and its place, its angle in radians and
  -- its match are the numbers that the four texts spell. `x` and `y` hold no comma and no `)`;
  -- `theta` and `match` are trimmed and hold no comma, and `theta` is not empty.
  pub data_test-report :
      (x y theta match : Bytes) (t : Target D)
      → Lacks b',' x
      → Lacks b')' x
      → Lacks b',' y
      → Lacks b')' y
      → IsItem b',' theta
      → theta ≢ []
      → IsItem b',' match
      → ((data_test (report x y theta match) t).target_present ≡ true)
        × ((data_test (report x y theta match) t).fov_x ≡ d.atof x)
        × ((data_test (report x y theta match) t).fov_y ≡ d.atof y)
        × ((data_test (report x y theta match) t).fov_theta ≡ to_radians (d.atof theta))
        × ((data_test (report x y theta match) t).fov_match ≡ d.atof match)
  unfolding use_report
  data_test-report x y theta match t hx hx' hy hy' ht ne hm =
      rw (data_test-eq x y theta match t hx hx' hy hy' ht ne hm) (
        present,
        rw (measurement-measure, measurement-measure, measurement-measure, measurement-measure)
            refl,
        rw (measurement-measure, measurement-measure, measurement-measure) refl,
        rw (measurement-measure, measurement-measure) refl,
        rw measurement-measure refl,
      )
    where
      present :
          (measure (codes "MATCH") match (
            measure (codes "THETA") theta (
              measure
                (codes "Y")
                y
                (measure (codes "X") x (record t { target_present = true }))))).target_present
          ≡ true
      present = unfold measure in refl

  -- Two commas in a row anywhere in a report mean that the target is lost: the flag goes down, and
  -- the place that was measured last stays.
  pub data_test-lost :
      (a b : Bytes) (t : Target D)
      → data_test (a ++ b',' ∷ b',' ∷ b) t ≡ record t { target_present = false }
  unfolding data_test
  data_test-lost a b t = rw (has_gap-comma_twice a b) refl
