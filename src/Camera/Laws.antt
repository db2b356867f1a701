-- ===== src/Camera/Laws.antt =====
-- release/build/uiinterfacethread.cpp and release/build/arm_2d.cpp: what the targets have seen once
-- messages have come in.
use robot_arm_2d.Camera.{camera}
use robot_arm_2d.Double.{Double}
use robot_arm_2d.Pattern.{deliver}
use robot_arm_2d.Prelude.{
  ℕ, ◌≡◌, ◌≢◌, refl, ap, ◌∙◌, true, List, [], ◌∷◌, ◌++◌, map, append_assoc, append-nil, none, some,
  ◌>>=◌, Bytes, All, Lacks, get_elem?, get_elem?-set_self,
}
use robot_arm_2d.Scene.{Scene, emit_to_target, test_target}
use robot_arm_2d.StdMap.{find}
use robot_arm_2d.StdMap.Laws.{at-found}
use robot_arm_2d.Stream.{new_thread, emit_record}
use robot_arm_2d.Stream.Messages.{
  Message, text_of, entry_of, IsMessage, holding, run-messages, emit_record-message,
}
use robot_arm_2d.Target.{Target, data_test, to_radians}
use robot_arm_2d.Target.Report.Texts.{report}
use robot_arm_2d.Target.Laws.{data_test-report}
use robot_arm_2d.Text.Split.Join.{join}

map-emit_record :
    (messages : List Message)
    → All IsMessage messages
    → map emit_record (map text_of messages) ≡ map entry_of messages
map-emit_record [] h = refl
map-emit_record (m ∷ messages) (h, hs) =
    rw (emit_record-message m h, map-emit_record messages hs) refl

-- The fields of a report `(x,y),theta,match`.
abbrev pub fields : Bytes → Bytes → Bytes → Bytes → List Bytes
fields x y theta match = (b'(' ∷ x) ∷ (y ++ b')' ∷ []) ∷ theta ∷ match ∷ []

join-fields :
    (x y theta match : Bytes) → join b',' (fields x y theta match) ≡ report x y theta match
join-fields x y theta match =
    ap (λ s. b'(' ∷ (x ++ b',' ∷ s))
      (append_assoc y (b')' ∷ []) (b',' ∷ (theta ++ b',' ∷ (match ++ [])))
        ∙ ap (λ s. y ++ b')' ∷ b',' ∷ (theta ++ b',' ∷ s)) (append-nil match))

lacks : (c : ℕ) (p q : Bytes) → Lacks c (p ++ q) → Lacks c p
lacks c [] q h = tt
lacks c (x ∷ p) q (h, k) = (h, lacks c p q k)

module _ {ℓ} {D : Type ℓ} ⦃d : Double D⦄ where
  -- From well-formed messages, one in each text, the writer thread delivers the report of each to
  -- the targets, in their order, but of the last one, which it holds back until another message
  -- begins.
  pub camera-messages :
      (messages : List Message) (last : Message) (scene : Scene D)
      → All IsMessage messages
      → IsMessage last
      → camera new_thread (map text_of (messages ++ last ∷ [])) scene
        ≡ some (holding (text_of last) new_thread, deliver (map entry_of messages) scene)
  unfolding camera
  camera-messages messages last scene h k =
      ap (λ o. o >>= λ r. some (r.0, deliver (map emit_record r.1) scene))
        (run-messages new_thread messages last h k)
      ∙ ap (λ entries. some (holding (text_of last) new_thread, deliver entries scene))
          (map-emit_record messages h)

  emit_to_target-known :
      (key data_str : Bytes) (scene : Scene D) (r : ℕ) (t : Target D)
      → find key scene.target_map ≡ some (some r)
      → get_elem? scene.targets r ≡ some t
      → get_elem? (emit_to_target key data_str scene).targets r ≡ some (data_test data_str t)
  unfolding emit_to_target test_target
  emit_to_target-known key data_str scene r t e k =
      ap (λ found. get_elem? (test_target found.0 data_str scene.targets) r)
        (at-found key none (some r) scene.target_map e)
      ∙ rw (k, test_target) (get_elem?-set_self scene.targets r t (data_test data_str t) k)

  -- A report `(x,y),theta,match` under a key of the map of reports comes from the socket through
  -- the writer thread to the target of that key as soon as the next message has come in: the target
  -- is present, and its place, its angle in radians and its match are the numbers that the four
  -- texts spell. Both messages are well formed: the key is a header, no field is one, no part holds
  -- a comma or has white space at an end, and the last is not empty. `x` and `y` hold no `)`, and
  -- `theta` is not empty.
  pub camera-report :
      (label x y theta match : Bytes) (next : Message) (scene : Scene D) (r : ℕ) (t : Target D)
      → IsMessage (label, fields x y theta match)
      → IsMessage next
      → Lacks b')' x
      → Lacks b')' y
      → theta ≢ []
      → find label scene.target_map ≡ some (some r)
      → get_elem? scene.targets r ≡ some t
      → (scene' : Scene D) × (t' : Target D) × (camera new_thread
            (text_of (label, fields x y theta match) ∷ text_of next ∷ [])
            scene
          ≡ some (holding (text_of next) new_thread, scene'))
        × (get_elem? scene'.targets r ≡ some t')
        × (t'.target_present ≡ true)
        × (t'.fov_x ≡ d.atof x)
        × (t'.fov_y ≡ d.atof y)
        × (t'.fov_theta ≡ to_radians (d.atof theta))
        × (t'.fov_match ≡ d.atof match)
  unfolding deliver
  camera-report label x y theta match next scene r t h k hx hy ne e l =
      let (_, (ix, (iy, (it, (im, _))))) = h.items in
      let seen =
        data_test-report x y theta match t ix.1.1 hx (lacks b',' y (b')' ∷ []) iy.1) hy it ne im in
      (
        emit_to_target label (report x y theta match) scene,
        data_test (report x y theta match) t,
        camera-messages ((label, fields x y theta match) ∷ []) next scene (h, tt) k
            ∙ ap (λ s. some (holding (text_of next) new_thread, emit_to_target label s scene))
                (join-fields x y theta match),
        emit_to_target-known label (report x y theta match) scene r t e l,
        seen.0,
        seen.1,
        seen.2,
        seen.3,
        seen.4,
      )
