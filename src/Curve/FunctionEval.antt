-- ===== src/Curve/FunctionEval.antt =====
-- scalajs/o3d/src/main/javascript/o3d-webgl/function.js: the cached output of a `FunctionEval`. The
-- function object, with its context, is a parameter; it is also evaluated at `null`, `none` here.
use toolbox.Base.{
  ◌≡◌, refl, sym, ap, ◌∙◌, Bool-cases, inl, inr, Bool, true, false, Option, none, some, List, [],
  ◌∷◌, if◌then◌else◌,
}
use toolbox.Base.Int.{ℤ, eqb_ℤ, eq_of_eqb_ℤ}

pub record FunctionEval (Output : Type 0) : Type 0 where
  pub last_input : Option ℤ
  pub last_output : Option Output

abbrev pub new_function_eval : {Output : Type 0} → FunctionEval Output
new_function_eval = record { last_input = none; last_output = none }

-- `last_input_value_ != new_input_value`, where `null` is no number.
abbrev pub same_input : Option ℤ → ℤ → Bool
same_input none i = false
same_input (some j) i = eqb_ℤ j i

-- The last of the inputs before, the latest first, that differs from an input; `null` if there is
-- none.
abbrev pub last_other : List ℤ → ℤ → Option ℤ
last_other [] i = none
last_other (j ∷ js) i = if eqb_ℤ j i then last_other js i else some j

module _ {Output : Type 0} (f : Option ℤ → Output) where
  -- The object after `updateOutputs` and the value it returns.
  unfoldable pub update_outputs : FunctionEval Output → ℤ → FunctionEval Output × Option Output
  update_outputs e input = if same_input e.last_input input then (e, e.last_output) else (
    record { last_input = some input; last_output = some (f e.last_input) },
    some (f e.last_input),
  )

  -- The values returned for one input after the other.
  pub read_all : FunctionEval Output → List ℤ → List (Option Output)
  unfolding update_outputs
  read_all e [] = []
  read_all e (i ∷ is) = let (e', value) = update_outputs e i in value ∷ read_all e' is

  -- For each input the function at the last one before it that differs from it.
  abbrev pub lagging : List ℤ → List ℤ → List (Option Output)
  lagging before [] = []
  lagging before (i ∷ is) = some (f (last_other before i)) ∷ lagging (i ∷ before) is

  -- The object after these inputs.
  abbrev after : List ℤ → FunctionEval Output
  after [] = new_function_eval
  after (j ∷ js) = record { last_input = some j; last_output = some (f (last_other js j)) }

  -- An input that repeats changes nothing.
  repeated : (i j : ℤ) (js : List ℤ) → eqb_ℤ j i ≡ true → last_other (j ∷ js) i ≡ last_other js j
  repeated i j js t = rw t (ap (last_other js) (sym (eq_of_eqb_ℤ j i t)))

  after_repeated : (i j : ℤ) (js : List ℤ) → eqb_ℤ j i ≡ true → after (i ∷ j ∷ js) ≡ after (j ∷ js)
  after_repeated i j js t =
      let same = sym (eq_of_eqb_ℤ j i t) in
      let output = repeated i j js t in
      λ k. record { last_input = some (same k); last_output = some (f (output k)) }

  read_all-lagging :
      (inputs before : List ℤ) → read_all (after before) inputs ≡ lagging before inputs
  unfolding read_all
  read_all-lagging [] before = refl
  read_all-lagging (i ∷ is) [] = ap (some (f none) ∷◌) (read_all-lagging is (i ∷ []))
  read_all-lagging (i ∷ is) (j ∷ js) = elim (Bool-cases (eqb_ℤ j i)) [
    | inl t ↦
        let output = repeated i j js t in
        let rest =
          ap (λ e. read_all e is) (sym (after_repeated i j js t))
          ∙ read_all-lagging is (i ∷ j ∷ js) in
        let first : read_all (after (j ∷ js)) (i ∷ is)
            ≡ some (f (last_other js j)) ∷ read_all (after (j ∷ js)) is =
          rw t refl in
        first
        ∙ ap (some (f (last_other js j)) ∷◌) rest
        ∙ ap (λ x. some (f x) ∷ lagging (i ∷ j ∷ js) is) (sym output)
    | inr t ↦
        let other : last_other (j ∷ js) i ≡ some j = rw t refl in
        let rest =
          ap (λ x. read_all (record { last_input = some i; last_output = some (f x) }) is)
            (sym other)
          ∙ read_all-lagging is (i ∷ j ∷ js) in
        rw t (ap (some (f (some j)) ∷◌) rest)
  ]

  -- A new object gives, for each input, the function not at this input but at the last one before
  -- it that differs from it, at `null` if there is none: outputs lag one change of the input behind,
  -- and inputs that repeat give the output that is remembered.
  pub update_outputs-lagging :
      (inputs : List ℤ) → read_all new_function_eval inputs ≡ lagging [] inputs
  update_outputs-lagging inputs = read_all-lagging inputs []
