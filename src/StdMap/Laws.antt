-- ===== src/StdMap/Laws.antt =====
-- What `m[k] = v` does to the entries and to their order.
use robot_arm_2d.Prelude.{
  ◌≡◌, refl, true, false, inl, inr, [], ◌∷◌, Option, none, some, arith, Bytes, if◌then◌else◌, equal,
  equal_iff, equal_refl, Bool-cases, Option-cases,
}
use robot_arm_2d.StdMap.{less, StdMap, find, put, at}

pub less_total : (a b : Bytes) → equal b a ≡ false → less a b ≡ false → less b a ≡ true
less_total [] [] h k = cc
less_total [] (y ∷ b) h k = cc
less_total (x ∷ a) [] h k = refl
less_total (x ∷ a) (y ∷ b) h k = ground (arith, less_total a b)

module _ {ℓ} {V : Type ℓ} where
  -- A lookup after `m[k] = v` gives `v` at `k`, and at any other key what it gave before.
  pub find-put :
      (k j : Bytes) (v : V) (m : StdMap V)
      → find j (put k v m) ≡ (if equal k j then some v else find j m)
  unfolding find put
  find-put k j v [] = refl
  find-put k j v ((i, w) ∷ m) =
      ground (arith, equal_iff k j, equal_iff i k, equal_iff i j, find-put k j v m)

  pub find-put_self : (k : Bytes) (v : V) (m : StdMap V) → find k (put k v m) ≡ some v
  find-put_self k v m = rw find-put (rw equal_refl)

  -- The key stands before the first entry.
  abbrev pub Below : Bytes → StdMap V → Type 0
  Below k [] = Unit
  Below k ((j, v) ∷ m) = less k j ≡ true

  -- The keys ascend.
  abbrev pub IsSorted : StdMap V → Type 0
  IsSorted [] = Unit
  IsSorted ((k, v) ∷ m) = Below k m × IsSorted m

  put-Below :
      (i k : Bytes) (v : V) (m : StdMap V) → less i k ≡ true → Below i m → Below i (put k v m)
  unfolding put
  put-Below i k v [] h b = h
  put-Below i k v ((j, w) ∷ m) h b = ground arith

  -- `m[k] = v` keeps the keys in ascending order.
  pub put-IsSorted : (k : Bytes) (v : V) (m : StdMap V) → IsSorted m → IsSorted (put k v m)
  unfolding put
  put-IsSorted k v [] h = (tt, tt)
  put-IsSorted k v ((j, w) ∷ m) (b, s) = elim (Bool-cases (equal j k)) [
    | inl e ↦ rw e (rw (← (equal_iff j k).0 e) b, s)
    | inr e ↦ rw e (elim (Bool-cases (less k j)) [
      | inl l ↦ rw l (l, (b, s))
      | inr l ↦ rw l (put-Below j k v m (less_total k j e l) b, put-IsSorted k v m s)
    ])
  ]

  abbrev pub or_else : V → Option V → V
  or_else d none = d
  or_else d (some v) = v

  pub at-value : (k : Bytes) (d : V) (m : StdMap V) → (at k d m).0 ≡ or_else d (find k m)
  unfolding at
  at-value k d m = elim (Option-cases (find k m)) [
    | inl e ↦ rw (e, at) refl
    | inr (v, e) ↦ rw (e, at) refl
  ]

  pub at-found : (k : Bytes) (d v : V) (m : StdMap V) → find k m ≡ some v → at k d m ≡ (v, m)
  unfolding at
  at-found k d v m e = rw (e, at) refl

  -- After a read `m[k]` the key is in the map, with the value that was read.
  pub find-at : (k : Bytes) (d : V) (m : StdMap V) → find k (at k d m).1 ≡ some (at k d m).0
  unfolding at
  find-at k d m = elim (Option-cases (find k m)) [
    | inl e ↦ rw (e, at) (find-put_self k d m)
    | inr (v, e) ↦ rw (e, at) e
  ]
