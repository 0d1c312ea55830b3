-- ===== src/Variables/Child.antt =====
-- What a child's context holds (crates/isograph_schema/src/variable_context.rs).
use isograph.Prelude.{◌≡◌, some, List, [], ◌∷◌, arith}
use isograph.Lang.Values.{NonConstantValue, VariableName, variables, try_from, from_constant}
use isograph.Lang.Constants.{Converts, try_from_lem}
use isograph.Variables.Context.{VariableContext, child_value}

-- What an argument's value with these variables becomes in the child's context.
abbrev pub Becomes : VariableContext → NonConstantValue → List VariableName → Type 0
Becomes context value [] = child_value context value ≡ some value
Becomes context value (x ∷ xs) = child_value context value ≡ context x

becomes :
    (context : VariableContext) (value : NonConstantValue) (xs : List VariableName)
    → Converts from_constant value (try_from value) xs
    → Becomes context value xs
unfolding child_value
becomes context value [] (c, e, b) = ground arith
becomes context value (x ∷ xs) h = ground arith

-- An argument's value becomes itself in the child's context if there is no variable in it; and if
-- there is one, however deep it stands in a list or an object, it becomes the parent's value of the
-- first variable alone, and the code panics if the parent has none.
pub child_value_lem :
    (context : VariableContext) (value : NonConstantValue) → Becomes context value (variables value)
child_value_lem context value = becomes context value (variables value) (try_from_lem value)
