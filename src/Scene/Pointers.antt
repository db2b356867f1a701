-- ===== src/Scene/Pointers.antt =====
-- release/build/arm_2d.cpp: the pointers that the stores of targets and sensors hold, and the
-- operations on the stores as steps.
use robot_arm_2d.Prelude.{
  ℕ, ◌<◌, ◌≡◌, refl, subst, inl, inr, some-injective, List, [], ◌∷◌, Option, none, some, Bytes, All,
  All-set, All-get_elem, length, length-set, get_elem?, set, Bool-cases, Option-cases,
  if◌then◌else◌, equal,
}
use robot_arm_2d.Scene.{Scene}
use robot_arm_2d.StdMap.{StdMap, less, find, put, at}
use robot_arm_2d.Target.{Target}

-- The pointer is NULL, or the number of one of `n` objects.
abbrev pub InRange : ℕ → Option ℕ → Type 0
InRange n none = Unit
InRange n (some r) = r < n

-- The same for each value of a map.
abbrev pub MapInRange : ℕ → StdMap (Option ℕ) → Type 0
MapInRange n = All (λ entry. InRange n entry.1)

module _ {ℓ} {D : Type ℓ} where
  -- Each pointer of the stores is NULL or points to an object that was made; the storage holds no
  -- NULL.
  pub record IsSound (scene : Scene D) : Type 0 where
    pub storage_made : All (λ r. r < length scene.targets) scene.storage
    pub travel_made : MapInRange (length scene.targets) scene.travel_map
    pub reported_made : MapInRange (length scene.targets) scene.target_map
    pub sensors_made : MapInRange (length scene.sensor_array) scene.sensor_map
    pub sensor_made : All (λ t. InRange (length scene.sensor_array) t.sensor) scene.targets

pub MapInRange-put :
    (n : ℕ) (k : Bytes) (v : Option ℕ) (m : StdMap (Option ℕ))
    → InRange n v
    → MapInRange n m
    → MapInRange n (put k v m)
unfolding put
MapInRange-put n k v [] p h = (p, tt)
MapInRange-put n k v ((j, w) ∷ m) p (q, h) = elim (Bool-cases (equal j k)) [
  | inl e ↦ rw e (p, h)
  | inr e ↦ rw e (elim (Bool-cases (less k j)) [
    | inl l ↦ rw l (p, (q, h))
    | inr l ↦ rw l (q, MapInRange-put n k v m p h)
  ])
]

InRange-find :
    (n : ℕ) (k : Bytes) (v : Option ℕ) (m : StdMap (Option ℕ))
    → MapInRange n m
    → find k m ≡ some v
    → InRange n v
unfolding find
InRange-find n k v [] h e = absurd (cc)
InRange-find n k v ((j, w) ∷ m) (p, h) e = elim (Bool-cases (equal j k)) [
  | inl s ↦
      subst (InRange n)
        (some-injective w v (subst (λ b. (if b then some w else find k m) ≡ some v) s e)) p
  | inr s ↦ InRange-find n k v m h (subst (λ b. (if b then some w else find k m) ≡ some v) s e)
]

-- What a lookup that may leave NULL behind reads and leaves.
pub MapInRange-at :
    (n : ℕ) (k : Bytes) (m : StdMap (Option ℕ))
    → MapInRange n m
    → InRange n (at k none m).0 × MapInRange n (at k none m).1
unfolding at
MapInRange-at n k m h = elim (Option-cases (find k m)) [
  | inl e ↦ rw (e, at) (tt, MapInRange-put n k none m tt h)
  | inr (v, e) ↦ rw (e, at) (InRange-find n k v m h e, h)
]

module _ {ℓ} {D : Type ℓ} where
  -- As many targets as before, and the sensor of each is one of `n`, or NULL.
  abbrev pub Kept : ℕ → ℕ → List (Target D) → Type 0
  Kept n made targets = (length targets ≡ made) × All (λ t. InRange n t.sensor) targets

  pub Kept-set :
      (n made r : ℕ) (targets : List (Target D)) (t u : Target D)
      → get_elem? targets r ≡ some t
      → u.sensor ≡ t.sensor
      → Kept n made targets
      → Kept n made (set targets r u)
  Kept-set n made r targets t u e s (l, h) = (
    rw (length-set targets r u) l,
    All-set (λ v. InRange n v.sensor) targets r u h
        (rw s (All-get_elem (λ v. InRange n v.sensor) targets r t h e)),
  )

  pub IsSound-Kept :
      (scene : Scene D)
      → IsSound scene
      → Kept (length scene.sensor_array) (length scene.targets) scene.targets
  IsSound-Kept scene h = (refl, h.sensor_made)

  -- Targets that are kept may take the place of the old ones.
  pub IsSound-targets :
      (scene : Scene D) (targets : List (Target D))
      → IsSound scene
      → Kept (length scene.sensor_array) (length scene.targets) targets
      → IsSound (record scene { targets = targets })
  IsSound-targets scene targets h (l, k) = record {
    storage_made = rw l (h.storage_made);
    travel_made = rw l (h.travel_made);
    reported_made = rw l (h.reported_made);
    sensors_made = h.sensors_made;
    sensor_made = k;
  }

  -- A target with a sensor that was made may take the place of another one.
  pub IsSound-set :
      (scene : Scene D) (r : ℕ) (t : Target D)
      → IsSound scene
      → InRange (length scene.sensor_array) t.sensor
      → IsSound (record scene { targets = set scene.targets r t })
  IsSound-set scene r t h p =
      IsSound-targets scene (set scene.targets r t) h
        (length-set scene.targets r t, All-set _ scene.targets r t h.sensor_made p)

  pub sensor-InRange :
      (scene : Scene D) (r : ℕ) (t : Target D)
      → IsSound scene
      → get_elem? scene.targets r ≡ some t
      → InRange (length scene.sensor_array) t.sensor
  sensor-InRange scene r t h e = All-get_elem _ scene.targets r t h.sensor_made e
