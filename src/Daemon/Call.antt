-- ===== src/Daemon/Call.antt =====
-- internal/daemon/command.go: the arguments of a call against those that its recipe declares.
pub mod Arguments
use beadle.Prelude.{
  ℕ, Bool, true, false, not, ◌&&◌, List, [], ◌∷◌, Option, none, some, if◌then◌else◌, any,
}
use beadle.Prelude.Int.{ℤ, is_positive, is_below}
use beadle.Text.{Text, codes, equal, byte_len, member, lookup}
use beadle.Daemon.Command.{CommandArg, Command}

-- The value of an argument, by its dynamic type: `float64` is its bits, `other` any other type.
pub data Value : Type 0 where
  string : Text → Value
  int int64 : ℤ → Value
  float64 : ℕ → Value
  bool : Bool → Value
  other : Value

pub data ArgError : Type 0 where
  unknown_arg missing_arg not_string too_long not_int not_bool enum_not_string not_allowed :
      Text → ArgError

-- `len(s) > a.MaxLength` where a length is set.
unfoldable pub check_string : CommandArg → Value → Option ArgError
check_string a (string s) =
    if is_positive a.max_length && is_below a.max_length (byte_len s)
    then some (too_long a.name)
    else none
check_string a _ = some (not_string a.name)

unfoldable pub check_int : CommandArg → Value → Option ArgError
check_int a (int n) = none
check_int a (int64 n) = none
check_int a (float64 n) = none
check_int a _ = some (not_int a.name)

unfoldable pub check_bool : CommandArg → Value → Option ArgError
check_bool a (bool b) = none
check_bool a _ = some (not_bool a.name)

unfoldable pub check_enum : CommandArg → Value → Option ArgError
check_enum a (string s) = if member s a.values then none else some (not_allowed a.name)
check_enum a _ = some (enum_not_string a.name)

-- The `switch a.Type` of `ValidateArgs`.
unfoldable pub check_value : CommandArg → Value → Option ArgError
check_value a v =
    if equal a.type (codes "string")
    then check_string a v
    else if equal a.type (codes "int")
    then check_int a v
    else if equal a.type (codes "bool")
    then check_bool a v
    else if equal a.type (codes "enum")
    then check_enum a v
    else none

abbrev pub Args : Type 0
Args = List (Text × Value)

unfoldable pub check_declared : Args → List CommandArg → Option ArgError
check_declared args [] = none
check_declared args (a ∷ decls) = elim (lookup a.name args) [
  | none ↦ if a.required then some (missing_arg a.name) else check_declared args decls
  | some v ↦ elim (check_value a v) [ none ↦ check_declared args decls | some e ↦ some e ]
]

-- The names given, against those declared.
unfoldable pub is_declared : List CommandArg → Text → Bool
is_declared decls name = any (λ a. equal a.name name) decls

unfoldable pub check_known : List CommandArg → Args → Option ArgError
check_known decls [] = none
check_known decls ((name, v) ∷ args) =
    if is_declared decls name then check_known decls args else some (unknown_arg name)

-- `ValidateArgs`. Go visits the names of the map in any order, here in the order of the list.
unfoldable pub validate_args : Command → Args → Option ArgError
validate_args cmd args = elim (check_known cmd.args args) [
  | some e ↦ some e
  | none ↦ check_declared args cmd.args
]
