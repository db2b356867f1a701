-- ===== src/Startup/Laws.antt =====
-- release/build/arm_2d.cpp: the maps and the storage behind init_sensor_descriptions.
use robot_arm_2d.Prelude.{
  ℕ, ◌+◌, ◌-◌, ◌<◌, ◌≡◌, refl, ap, ◌∙◌, false, inl, inr, List, [], ◌∷◌, Option, none, some, arith,
  Bytes, codes, All, All-append, All-replicate, All-set, length-replicate, length-set, length,
  length-append, replicate, set, leb, equal, Bool-cases,
}
use robot_arm_2d.Double.{Double}
use robot_arm_2d.Motor.{parameter}
use robot_arm_2d.Scene.{Scene}
use robot_arm_2d.Target.{Target, new_target}
use robot_arm_2d.Target.Specialize.{describe_target}
use robot_arm_2d.Startup.{can_start, store_target, enter_target, define_target}
use robot_arm_2d.StdMap.{StdMap, find, at}
use robot_arm_2d.StdMap.Laws.{find-at, at-value, or_else}

-- A pointer that is NULL under any key keeps the sensors from starting.
can_start-find :
    (key : Bytes) (sensors : StdMap (Option ℕ))
    → find key sensors ≡ some none
    → can_start sensors ≡ false
unfolding can_start find
can_start-find key [] h = absurd (cc)
can_start-find key ((j, none) ∷ sensors) h = refl
can_start-find key ((j, some s) ∷ sensors) h = elim (Bool-cases (equal j key)) [
  | inl e ↦ absurd (ground arith)
  | inr e ↦ can_start-find key sensors (ground arith)
]

-- The lookup of a name that no sensor has leaves NULL in the map of the sensors, and then the start
-- of the sensors is undefined.
can_start-at :
    (source : Bytes) (sensors : StdMap (Option ℕ))
    → find source sensors ≡ none
    → can_start (at source none sensors).1 ≡ false
can_start-at source sensors h =
    can_start-find source (at source none sensors).1
      (find-at source none sensors ∙ ap some (at-value source none sensors ∙ ap (or_else none) h))

-- Storing a target at an index makes the index one of the storage, and every pointer of the storage
-- is one that was there or the new one.
pub store_target_lem :
    (P : ℕ → Type 0) (index target : ℕ) (storage : List ℕ)
    → All P storage
    → P target
    → (index < length (store_target index target storage))
      × All P (store_target index target storage)
unfolding store_target
store_target_lem P index target storage h k = elim (Bool-cases (leb (length storage) index)) [
  | inl e ↦ rw e (
    omega (
      arith,
      length-append storage (replicate (index + 1 - length storage) target),
      length-replicate (index + 1 - length storage) target,
    ),
    All-append P storage (replicate (index + 1 - length storage) target) h
        (All-replicate P (index + 1 - length storage) target k),
  )
  | inr e ↦ rw e (within e, All-set P storage index target h k)
]
  where
    within : leb (length storage) index ≡ false → index < length (set storage index target)
    within e = rw (length-set storage index target) (ground arith)

module _ {ℓ} {D : Type ℓ} ⦃d : Double D⦄ where
  -- The definition of a target whose `source` is no sensor's name is taken, and then the start of
  -- the sensors is undefined: NULL stands in their map.
  pub define_target_unknown :
      (junk : D) (index : ℕ) (line : Bytes) (scene : Scene D) (t : Target D)
      → describe_target line (new_target junk) ≡ some t
      → find (parameter (codes "source") t.sink).0 scene.sensor_map ≡ none
      → (scene' : Scene D) × (define_target junk index line scene ≡ some scene')
        × (can_start scene'.sensor_map ≡ false)
  unfolding define_target enter_target
  define_target_unknown junk index line scene t e h = (
    enter_target index t scene,
    rw e refl,
    can_start-at (parameter (codes "source") t.sink).0 scene.sensor_map h,
  )
