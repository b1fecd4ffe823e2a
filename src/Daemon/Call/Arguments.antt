-- ===== src/Daemon/Call/Arguments.antt =====
-- The calls whose arguments `ValidateArgs` (internal/daemon/command.go) accepts.
use beadle.Prelude.{
  ℕ, zero, suc, ◌≤◌, ◌≡◌, ◌≢◌, ◌⊎◌, ◌↔◌, true, false, List, [], ◌∷◌, Option, none, some, arith, All,
  Option-cases, inl, inr,
}
use beadle.Prelude.Int.{ℤ, pos, negsuc, is_positive, is_below}
use beadle.Text.{Text, codes, byte_len, member, lookup}
use beadle.Text.Laws.{equal_iff}
use beadle.Daemon.Command.{CommandArg, Command}
use beadle.Daemon.Call.{
  Value, string, int, int64, float64, bool, check_string, check_int, check_bool, check_enum,
  check_value, Args, check_declared, is_declared, check_known, validate_args, other,
}

-- No limit, or a length within it.
abbrev pub Fits : ℤ → ℕ → Type 0
Fits (negsuc m) n = Unit
Fits (pos zero) n = Unit
Fits (pos (suc m)) n = n ≤ suc m

-- A declared type that no `case` of `ValidateArgs` names.
pub record IsUntyped (a : CommandArg) : Type 0 where
  pub not_str : a.type ≢ codes "string"
  pub not_num : a.type ≢ codes "int"
  pub not_boolean : a.type ≢ codes "bool"
  pub not_choice : a.type ≢ codes "enum"

abbrev pub IsTyped : CommandArg → Value → Type 0
IsTyped a (string s) =
    ((a.type ≡ codes "string") × Fits a.max_length (byte_len s))
    ⊎ ((a.type ≡ codes "enum") × (member s a.values ≡ true))
    ⊎ IsUntyped a
IsTyped a (int n) = (a.type ≡ codes "int") ⊎ IsUntyped a
IsTyped a (int64 n) = (a.type ≡ codes "int") ⊎ IsUntyped a
IsTyped a (float64 n) = (a.type ≡ codes "int") ⊎ IsUntyped a
IsTyped a (bool b) = (a.type ≡ codes "bool") ⊎ IsUntyped a
IsTyped a other = IsUntyped a

Fits-iff : (z : ℤ) (n : ℕ) → Fits z n ↔ ((is_positive z ≡ false) ⊎ (is_below z n ≡ false))
Fits-iff (negsuc m) n = ground arith
Fits-iff (pos zero) n = ground arith
Fits-iff (pos (suc m)) n = ground arith

check_value_iff : (a : CommandArg) (v : Value) → (check_value a v ≡ none) ↔ IsTyped a v
unfolding check_value check_string check_int check_bool check_enum
check_value_iff a (string s) = ground (
  arith,
  Fits-iff a.max_length (byte_len s),
  equal_iff a.type (codes "string"),
  equal_iff a.type (codes "int"),
  equal_iff a.type (codes "bool"),
  equal_iff a.type (codes "enum"),
)
check_value_iff a _ = ground (
  arith,
  equal_iff a.type (codes "string"),
  equal_iff a.type (codes "int"),
  equal_iff a.type (codes "bool"),
  equal_iff a.type (codes "enum"),
)

-- What a declared argument asks of the value given for it, or of there being none.
abbrev pub Accepts : CommandArg → Option Value → Type 0
Accepts a none = a.required ≡ false
Accepts a (some v) = IsTyped a v

check_declared_iff :
    (args : Args) (decls : List CommandArg)
    → (check_declared args decls ≡ none) ↔ All (λ a. Accepts a (lookup a.name args)) decls
unfolding check_declared
check_declared_iff args [] = ground arith
check_declared_iff args (a ∷ decls) = elim (Option-cases (lookup a.name args)) [
  | inl e ↦ rw (e, check_declared) (ground (arith, check_declared_iff args decls))
  | inr (v, e) ↦
      rw (e, check_declared) (ground (arith, check_value_iff a v, check_declared_iff args decls))
]

check_known_iff :
    (decls : List CommandArg) (args : Args)
    → (check_known decls args ≡ none)
      ↔ All (λ (given : Text × Value). is_declared decls given.0 ≡ true) args
unfolding check_known
check_known_iff decls [] = ground arith
check_known_iff decls ((name, v) ∷ args) = ground (arith, check_known_iff decls args)

-- `ValidateArgs` accepts a call exactly if every name given is declared, and every declared argument
-- is given a value of its type and within its limits, or is not given and not required.
pub validate_args_iff :
    (cmd : Command) (args : Args)
    → (validate_args cmd args ≡ none) ↔ (
        All (λ (given : Text × Value). is_declared cmd.args given.0 ≡ true) args
        × All (λ a. Accepts a (lookup a.name args)) cmd.args)
unfolding validate_args
validate_args_iff cmd args =
    ground (arith, check_known_iff cmd.args args, check_declared_iff args cmd.args)
