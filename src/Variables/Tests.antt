-- ===== src/Variables/Tests.antt =====
-- Contexts of variables at concrete inputs.
use isograph.Prelude.{◌≡◌, refl, none, some, ◌==◌, if◌then◌else◌}
use isograph.Lang.Location.{Location}
use isograph.Lang.Values.{NonConstantValue, variable, string, object, end, field, variables}
use isograph.Lang.Values
use isograph.Variables.Context.{VariableContext, child_value}
use isograph.Variables.Child.{Becomes, child_value_lem}

-- The parent's `$9` is the string 4.
abbrev parent : VariableContext
parent x = if 9 == x then some (string 4) else none

-- `{ 2: $9 }`
abbrev nested : NonConstantValue
nested =
    object (
      field (record { item = 2; location = Location.generated }) (variable 9) Location.generated
        end)

child_value_lem_example : Becomes parent nested (variables nested)
child_value_lem_example = child_value_lem parent nested

-- The object around the variable is gone.
nested_lost : child_value parent nested ≡ some (string 4)
unfolding child_value Values.try_from Values.try_from_fields
nested_lost = refl
