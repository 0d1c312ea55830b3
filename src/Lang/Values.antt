-- ===== src/Lang/Values.antt =====
-- Literal values: crates/isograph_lang_types/src/client_field_declaration.rs. An interned string
-- and a float are their numbers, and an `i64` is its bit pattern: none of them is looked into.
use isograph.Prelude.{ℕ, Bool, Option, List, [], ◌∷◌, ◌++◌}
use isograph.Lang.Outcome.{Outcome, ok, err, ◌>>=◌}
use isograph.Lang.Location.{Location, WithLocation}
use isograph.Lang.GraphqlType.{GraphqlTypeAnnotation}

abbrev pub VariableName : Type 0
VariableName = ℕ

-- `values v l rest` is the `WithLocation` of `v` and `l` before `rest`; `field name v l rest` is
-- the `NameValuePair` of `name` and the `WithLocation` of `v` and `l` before `rest`.
mutual
  pub data NonConstantValue : Type 0 where
    variable : VariableName → NonConstantValue
    integer : ℕ → NonConstantValue
    boolean : Bool → NonConstantValue
    string : ℕ → NonConstantValue
    float : ℕ → NonConstantValue
    null : NonConstantValue
    enum : ℕ → NonConstantValue
    list : NonConstantValues → NonConstantValue
    object : NonConstantFields → NonConstantValue

  pub data NonConstantValues : Type 0 where
    nil : NonConstantValues
    values : NonConstantValue → Location → NonConstantValues → NonConstantValues

  pub data NonConstantFields : Type 0 where
    end : NonConstantFields
    field : WithLocation ℕ → NonConstantValue → Location → NonConstantFields → NonConstantFields

mutual
  pub data ConstantValue : Type 0 where
    constant_integer : ℕ → ConstantValue
    constant_boolean : Bool → ConstantValue
    constant_string : ℕ → ConstantValue
    constant_float : ℕ → ConstantValue
    constant_null : ConstantValue
    constant_enum : ℕ → ConstantValue
    constant_list : ConstantValues → ConstantValue
    constant_object : ConstantFields → ConstantValue

  pub data ConstantValues : Type 0 where
    constant_nil : ConstantValues
    constant_values : ConstantValue → Location → ConstantValues → ConstantValues

  pub data ConstantFields : Type 0 where
    constant_end : ConstantFields
    constant_field : WithLocation ℕ → ConstantValue → Location → ConstantFields → ConstantFields

unfoldable mutual
  pub variables : NonConstantValue → List VariableName
  variables (variable name) = name ∷ []
  variables (integer n) = []
  variables (boolean b) = []
  variables (string s) = []
  variables (float f) = []
  variables null = []
  variables (enum e) = []
  variables (list items) = list_variables items
  variables (object fields) = object_variables fields

  pub list_variables : NonConstantValues → List VariableName
  list_variables nil = []
  list_variables (values v l rest) = variables v ++ list_variables rest

  pub object_variables : NonConstantFields → List VariableName
  object_variables end = []
  object_variables (field name v l rest) = variables v ++ object_variables rest

unfoldable mutual
  pub from_constant : ConstantValue → NonConstantValue
  from_constant (constant_integer n) = integer n
  from_constant (constant_boolean b) = boolean b
  from_constant (constant_string s) = string s
  from_constant (constant_float f) = float f
  from_constant constant_null = null
  from_constant (constant_enum e) = enum e
  from_constant (constant_list items) = list (from_constants items)
  from_constant (constant_object fields) = object (from_constant_fields fields)

  pub from_constants : ConstantValues → NonConstantValues
  from_constants constant_nil = nil
  from_constants (constant_values v l rest) = values (from_constant v) l (from_constants rest)

  pub from_constant_fields : ConstantFields → NonConstantFields
  from_constant_fields constant_end = end
  from_constant_fields (constant_field name v l rest) =
      field name (from_constant v) l (from_constant_fields rest)

unfoldable mutual
  pub try_from : NonConstantValue → Outcome VariableName ConstantValue
  try_from (variable name) = err name
  try_from (integer n) = ok (constant_integer n)
  try_from (boolean b) = ok (constant_boolean b)
  try_from (string s) = ok (constant_string s)
  try_from (float f) = ok (constant_float f)
  try_from null = ok constant_null
  try_from (enum e) = ok (constant_enum e)
  try_from (list items) = try_from_values items >>= (λ cs. ok (constant_list cs))
  try_from (object fields) = try_from_fields fields >>= (λ cs. ok (constant_object cs))

  pub try_from_values : NonConstantValues → Outcome VariableName ConstantValues
  try_from_values nil = ok constant_nil
  try_from_values (values v l rest) =
      try_from v >>= (λ c. try_from_values rest >>= (λ cs. ok (constant_values c l cs)))

  pub try_from_fields : NonConstantFields → Outcome VariableName ConstantFields
  try_from_fields end = ok constant_end
  try_from_fields (field name v l rest) =
      try_from v >>= (λ c. try_from_fields rest >>= (λ cs. ok (constant_field name c l cs)))

pub record NameValuePair : Type 0 where
  pub name : WithLocation ℕ
  pub value : WithLocation NonConstantValue

pub record VariableDefinition {ℓ} (T : Type ℓ) : Type ℓ where
  pub name : WithLocation VariableName
  pub type_ : GraphqlTypeAnnotation T
  pub default_value : Option (WithLocation ConstantValue)
