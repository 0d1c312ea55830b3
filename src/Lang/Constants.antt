-- ===== src/Lang/Constants.antt =====
-- Constants among the literal values: the two conversions of
-- crates/isograph_lang_types/src/client_field_declaration.rs.
use isograph.Prelude.{◌≡◌, List, [], ◌∷◌, ◌++◌, arith, refl, subst}
use isograph.Lang.Outcome.{Outcome, ok, err, ◌>>=◌}
use isograph.Lang.Values.{
  VariableName, NonConstantValue, NonConstantValues, NonConstantFields, ConstantValue,
  ConstantValues, ConstantFields, variable, integer, boolean, string, float, null, enum, list,
  object, nil, values, end, field, variables, list_variables, object_variables, from_constant,
  from_constants, from_constant_fields, try_from, try_from_values, try_from_fields,
  constant_integer, constant_boolean, constant_string, constant_float, constant_null, constant_enum,
  constant_list, constant_object, constant_nil, constant_values, constant_end, constant_field,
}

-- What a conversion returns for a value with these variables, where `back` undoes it.
abbrev pub Converts :
    {V C : Type 0} → (C → V) → V → Outcome VariableName C → List VariableName → Type 0
Converts {C = C} back v result [] = (c : C) × (result ≡ ok c) × (back c ≡ v)
Converts back v result (x ∷ xs) = result ≡ err x

-- A conversion of two parts, one after the other.
Converts-append :
    {V C W D X E : Type 0} (back : C → V) (back' : D → W) (undo : E → X) (build : C → D → E)
    (put : V → W → X)
    → ((c : C) (d : D) → undo (build c d) ≡ put (back c) (back' d))
    → (v : V) (w : W) (r : Outcome VariableName C) (r' : Outcome VariableName D)
      (xs ys : List VariableName)
    → Converts back v r xs
    → Converts back' w r' ys
    → Converts undo (put v w) (r >>= (λ c. r' >>= (λ d. ok (build c d)))) (xs ++ ys)
Converts-append back back' undo build put undone v w r r' (x ∷ xs) ys h h' = rw h refl
Converts-append back back' undo build put undone v w r r' [] (y ∷ ys) (c, e, b) h' = ground arith
Converts-append back back' undo build put undone v w r r' [] [] (c, e, b) (d, e', b') =
    (build c d, ground arith, ground (arith, undone c d))

-- A conversion under a constructor.
Converts-map :
    {V C X E : Type 0} (back : C → V) (undo : E → X) (build : C → E) (put : V → X)
    → ((c : C) → undo (build c) ≡ put (back c))
    → (v : V) (r : Outcome VariableName C) (xs : List VariableName) → Converts back v r xs
    → Converts undo (put v) (r >>= (λ c. ok (build c))) xs
Converts-map back undo build put undone v r (x ∷ xs) h = rw h refl
Converts-map back undo build put undone v r [] (c, e, b) =
    (build c, ground arith, ground (arith, undone c))

mutual
  unfolding try_from try_from_values try_from_fields variables list_variables object_variables
      from_constant from_constants from_constant_fields

  converts : (v : NonConstantValue) → Converts from_constant v (try_from v) (variables v)
  converts (variable name) = refl
  converts (integer n) = (constant_integer n, refl, refl)
  converts (boolean b) = (constant_boolean b, refl, refl)
  converts (string s) = (constant_string s, refl, refl)
  converts (float f) = (constant_float f, refl, refl)
  converts null = (constant_null, refl, refl)
  converts (enum e) = (constant_enum e, refl, refl)
  converts (list items) =
      Converts-map from_constants from_constant constant_list list (λ c. refl) items
        (try_from_values items) (list_variables items) (try_from_values_lem items)
  converts (object fields) =
      Converts-map from_constant_fields from_constant constant_object object (λ c. refl) fields
        (try_from_fields fields) (object_variables fields) (try_from_fields_lem fields)

  try_from_values_lem :
      (vs : NonConstantValues) → Converts from_constants vs (try_from_values vs) (list_variables vs)
  try_from_values_lem nil = (constant_nil, refl, refl)
  try_from_values_lem (values v l rest) =
      Converts-append from_constant from_constants from_constants (λ c cs. constant_values c l cs)
        (λ x xs. values x l xs) (λ c d. refl) v rest (try_from v) (try_from_values rest)
        (variables v) (list_variables rest) (converts v) (try_from_values_lem rest)

  try_from_fields_lem :
      (fs : NonConstantFields)
      → Converts from_constant_fields fs (try_from_fields fs) (object_variables fs)
  try_from_fields_lem end = (constant_end, refl, refl)
  try_from_fields_lem (field name v l rest) =
      Converts-append from_constant from_constant_fields from_constant_fields
        (λ c cs. constant_field name c l cs) (λ x xs. field name x l xs) (λ c d. refl) v rest
        (try_from v) (try_from_fields rest) (variables v) (object_variables rest) (converts v)
        (try_from_fields_lem rest)

-- The conversion of a literal value to a constant fails exactly when the value holds a variable,
-- and then with the first one; otherwise the constant that it returns turns back into the value.
pub try_from_lem : (v : NonConstantValue) → Converts from_constant v (try_from v) (variables v)
try_from_lem v = converts v

mutual
  unfolding variables list_variables object_variables from_constant from_constants
      from_constant_fields

  pub variables-from_constant : (c : ConstantValue) → variables (from_constant c) ≡ []
  variables-from_constant (constant_integer n) = refl
  variables-from_constant (constant_boolean b) = refl
  variables-from_constant (constant_string s) = refl
  variables-from_constant (constant_float f) = refl
  variables-from_constant constant_null = refl
  variables-from_constant (constant_enum e) = refl
  variables-from_constant (constant_list items) = list_variables-from_constants items
  variables-from_constant (constant_object fields) = object_variables-from_constant_fields fields

  list_variables-from_constants : (cs : ConstantValues) → list_variables (from_constants cs) ≡ []
  list_variables-from_constants constant_nil = refl
  list_variables-from_constants (constant_values c l rest) =
      rw (variables-from_constant c, list_variables-from_constants rest)

  object_variables-from_constant_fields :
      (cs : ConstantFields) → object_variables (from_constant_fields cs) ≡ []
  object_variables-from_constant_fields constant_end = refl
  object_variables-from_constant_fields (constant_field name c l rest) =
      rw (variables-from_constant c, object_variables-from_constant_fields rest)

-- A constant that is turned into a literal value is converted to a constant that stands for the same
-- value.
pub try_from-from_constant :
    (c : ConstantValue)
    → (d : ConstantValue) × (try_from (from_constant c) ≡ ok d)
      × (from_constant d ≡ from_constant c)
try_from-from_constant c =
    subst (Converts from_constant (from_constant c) (try_from (from_constant c)))
      (variables-from_constant c) (converts (from_constant c))
