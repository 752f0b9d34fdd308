-- ===== src/Python/Json.antt =====
-- JSON values as Python holds them, and `dict.get` on string keys.
use agentanvil.Prelude.{String, Bool, true, false, Option, none, some, str_eq, if◌then◌else◌}
use agentanvil.Prelude.Int.{ℤ, pos}
use agentanvil.Python.Text.{Text, lit, show_ℤ}

mutual
  pub data Json : Type 0 where
    null : Json
    bool : Bool → Json
    int : ℤ → Json
    -- a float, by its `repr`
    float : String → Json
    str : Text → Json
    arr : Items → Json
    obj : Fields → Json

  pub data Items : Type 0 where
    nil : Items
    cons : Json → Items → Items

  pub data Fields : Type 0 where
    end : Fields
    field : String → Json → Fields → Fields

-- `d.get(key)`; a `dict` from JSON has each key once.
unfoldable pub get : String → Fields → Option Json
get key end = none
get key (field name value rest) = if str_eq name key then some value else get key rest

-- `isinstance(v, str)`
abbrev pub as_str : Option Json → Option Text
as_str (some (str s)) = some s
as_str _ = none

-- An object that passed `isinstance(v, int)`: its value, and what an f-string shows of it.
pub record PyInt : Type 0 where
  pub value : ℤ
  pub shown : Text

abbrev pub py_int : ℤ → PyInt
py_int n = record { value = n; shown = show_ℤ n }

-- `isinstance(v, int)`; a `bool` is an `int` too.
abbrev pub as_int : Option Json → Option PyInt
as_int (some (int n)) = some (py_int n)
as_int (some (bool true)) = some (record { value = pos 1; shown = lit "True" })
as_int (some (bool false)) = some (record { value = pos 0; shown = lit "False" })
as_int _ = none
