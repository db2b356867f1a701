-- ===== src/Motor/Sink.antt =====
-- release/build/arm_configuration.h: the parameters of a ParameterSink.
use robot_arm_2d.Config.RoundTrip.{IsKey, split_string-entry, trim_string-eq, append-ne-nil}
use robot_arm_2d.Motor.{
  ParameterSink, add_parameter, has_parameters, parameter, add_items, set_descriptor,
}
use robot_arm_2d.Prelude.{
  ◌≡◌, refl, ap, ◌∙◌, Bool, true, false, ◌||◌, inl, inr, List, [], ◌∷◌, ◌++◌, map, Option, none,
  some, Bytes, All, equal, if◌then◌else◌, Bool-cases, Option-cases,
}
use robot_arm_2d.StdMap.{StdMap, find, put, at}
use robot_arm_2d.StdMap.Laws.{find-put}
use robot_arm_2d.Text.Split.Join.{join, EndsFull, to_items-join}
use robot_arm_2d.Text.Split.Laws.{IsItem}
use robot_arm_2d.Text.Trim.{trim_string}
use robot_arm_2d.Text.Trim.Laws.{IsTrimmed}

-- What a lookup finds, as `has_parameters` and `parameter` return it.
abbrev is_there : Option Bytes → Bool
is_there none = false
is_there (some v) = true

abbrev or_empty : Option Bytes → Bytes
or_empty none = []
or_empty (some v) = v

has_parameters-eq :
    (key : Bytes) (sink : ParameterSink)
    → has_parameters key sink ≡ is_there (find key sink.parameters)
unfolding has_parameters
has_parameters-eq key sink = elim (Option-cases (find key sink.parameters)) [
  | inl e ↦ rw (e, has_parameters) refl
  | inr (v, e) ↦ rw (e, has_parameters) refl
]

parameter-eq :
    (key : Bytes) (sink : ParameterSink)
    → (parameter key sink).0 ≡ or_empty (find key sink.parameters)
unfolding parameter at
parameter-eq key sink = elim (Option-cases (find key sink.parameters)) [
  | inl e ↦ rw (e, at) refl
  | inr (v, e) ↦ rw (e, at) refl
]

-- After `add_parameter(key,line)` the parameter `key` is there and is `line`; every other one is
-- there, and is, what it was before.
pub add_parameter_lem :
    (key line other : Bytes) (sink : ParameterSink)
    → (has_parameters other (add_parameter key line sink)
        ≡ equal key other || has_parameters other sink)
      × ((parameter other (add_parameter key line sink)).0
          ≡ (if equal key other then line else (parameter other sink).0))
unfolding add_parameter
add_parameter_lem key line other sink =
    let stored = add_parameter key line sink in
    rw
      (
        has_parameters-eq other stored,
        parameter-eq other stored,
        has_parameters-eq other sink,
        parameter-eq other sink,
      )
      (rw (find-put key other line sink.parameters) (elim (Bool-cases (equal key other)) [
        | inl e ↦ rw e (refl, refl)
        | inr e ↦ rw e (refl, refl)
      ]))

-- A parameter of a goal description, `key:value`.
abbrev pub definition_of : Bytes × Bytes → Bytes
definition_of (key, value) = key ++ b':' ∷ value

abbrev pub IsDefinition : Bytes × Bytes → Type 0
IsDefinition (key, value) = IsKey key × IsTrimmed value × IsItem b';' (key ++ b':' ∷ value)

abbrev pub put_all : List (Bytes × Bytes) → StdMap Bytes → StdMap Bytes
put_all [] m = m
put_all ((key, value) ∷ ps) m = put_all ps (put key value m)

add_items-definitions :
    (ps : List (Bytes × Bytes)) (sink : ParameterSink)
    → All IsDefinition ps
    → add_items (map definition_of ps) sink
      ≡ record sink { parameters = put_all ps sink.parameters }
unfolding add_items add_parameter
add_items-definitions [] sink h = refl
add_items-definitions ((key, value) ∷ ps) sink ((k, t, _), h) =
    let put_one = λ (pair : Bytes × Bytes).
      add_items (map definition_of ps)
        (add_parameter (trim_string pair.0) (trim_string pair.1) sink) in
    ap put_one (split_string-entry key value k t)
    ∙ rw (trim_string-eq key k.0.0, trim_string-eq value t)
        (add_items-definitions ps (add_parameter key value sink) h)

definitions-All :
    (ps : List (Bytes × Bytes)) → All IsDefinition ps → All (IsItem b';') (map definition_of ps)
definitions-All [] h = tt
definitions-All ((key, value) ∷ ps) ((_, _, i), h) = (i, definitions-All ps h)

definitions-EndsFull : (ps : List (Bytes × Bytes)) → EndsFull (map definition_of ps)
definitions-EndsFull [] = tt
definitions-EndsFull ((key, value) ∷ []) = append-ne-nil key b':' value
definitions-EndsFull (p ∷ q ∷ ps) = definitions-EndsFull (q ∷ ps)

-- `set_descriptor` on definitions `key:value` with `;` between them stores exactly these, in their
-- order, and hands the result to the class's `specialization`, with the queue as it was; what that
-- gives is the result. Each key is trimmed and not empty, has no colon and no line end and is no
-- start of a comment, each value is trimmed, and no definition holds a `;`.
pub set_descriptor-definitions {ℓ} :
    {A : Type ℓ} (specialize : ParameterSink → Option A) (ps : List (Bytes × Bytes))
    (sink : ParameterSink)
    → All IsDefinition ps
    → set_descriptor specialize (join b';' (map definition_of ps)) sink
      ≡ specialize (record sink { parameters = put_all ps sink.parameters })
unfolding set_descriptor
set_descriptor-definitions specialize ps sink h =
    rw
      (to_items-join b';' (map definition_of ps) refl (definitions-All ps h)
        (definitions-EndsFull ps))
      (ap specialize (add_items-definitions ps sink h))
