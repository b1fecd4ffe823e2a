-- ===== src/Daemon/Command/Parts.antt =====
-- What each check of `ValidateCommand` (internal/daemon/command.go) accepts, described without it.
use beadle.Prelude.{ℕ, zero, suc, ◌≡◌, refl, ◌≢◌, ◌⊎◌, ◌↔◌, true, List, [], ◌∷◌, none, arith, All}
use beadle.Prelude.Int.{ℤ, pos, negsuc, is_positive}
use beadle.Text.{Text, codes, equal, member}
use beadle.Text.Laws.{equal_iff}
use beadle.Daemon.Command.{
  CommandArg, Step, OutputSchema, nil, str, object, other, Command, valid_arg_types,
  valid_tool_names, valid_arg_name, check_runner, check_tools, check_schema, position_owner,
  check_position, see_position, check_arg, check_args, wanted_stdin, check_steps,
}

pub record IsClaude (c : Command) : Type 0 where
  pub prompted : c.prompt ≢ []
  pub rounds : is_positive c.rounds ≡ true
  pub no_binary : c.binary ≡ []
  pub no_steps : c.steps ≡ []
  pub no_fixed_args : c.fixed_args ≡ []

pub record IsCli (c : Command) : Type 0 where
  pub one_source : ((c.binary ≢ []) × (c.steps ≡ [])) ⊎ ((c.binary ≡ []) × (c.steps ≢ []))
  pub no_tools : c.tools ≡ []

abbrev pub HasRunner : Command → Type 0
HasRunner c = ((c.runner ≡ codes "claude") × IsClaude c) ⊎ ((c.runner ≡ codes "cli") × IsCli c)

pub check_runner-IsClaude :
    (c : Command) → c.runner ≡ codes "claude" → (check_runner c ≡ none) ↔ IsClaude c
unfolding check_runner equal
check_runner-IsClaude c h = rw (h, check_runner) (ground arith)

pub check_runner-IsCli : (c : Command) → c.runner ≡ codes "cli" → (check_runner c ≡ none) ↔ IsCli c
unfolding check_runner equal
check_runner-IsCli c h = rw (h, check_runner) (ground arith)

-- The positive positions, in order.
abbrev pub positions_of : ℤ → List ℕ → List ℕ
positions_of (negsuc p) ps = ps
positions_of (pos zero) ps = ps
positions_of (pos (suc p)) ps = suc p ∷ ps

abbrev pub positions : List CommandArg → List ℕ
positions [] = []
positions (a ∷ args) = positions_of a.position (positions args)

abbrev pub Distinct : List ℕ → Type 0
Distinct [] = Unit
Distinct (p ∷ ps) = All (λ q. p ≢ q) ps × Distinct ps

pub record IsArg (a : CommandArg) : Type 0 where
  pub name_ok : valid_arg_name a.name ≡ true
  pub type_ok : member a.type valid_arg_types ≡ true
  pub enum_ok : (a.type ≢ codes "enum") ⊎ (a.values ≢ [])

abbrev pub IsFree : List (ℕ × Text) → ℕ → Type 0
IsFree seen p = position_owner p seen ≡ none

check_arg_iff :
    (i : ℕ) (a : CommandArg) (seen : List (ℕ × Text))
    → (check_arg i a seen ≡ none) ↔ (IsArg a × (check_position a a.position seen ≡ none))
unfolding check_arg valid_arg_name
check_arg_iff i a seen = ground (arith, equal_iff a.type (codes "enum"))

abbrev pub IsChain : ℕ → List Step → Type 0
IsChain i [] = Unit
IsChain i (s ∷ steps) = (s.binary ≢ []) × (s.stdin ≡ wanted_stdin i) × IsChain (suc i) steps

pub check_steps_iff : (i : ℕ) (steps : List Step) → (check_steps i steps ≡ none) ↔ IsChain i steps
unfolding check_steps
check_steps_iff i [] = ((λ _. tt), λ _. refl)
check_steps_iff i (s ∷ steps) =
    ground (arith, equal_iff s.stdin (wanted_stdin i), check_steps_iff (suc i) steps)

pub check_tools_iff :
    (tools : List Text)
    → (check_tools tools ≡ none) ↔ All (λ t. member t valid_tool_names ≡ true) tools
unfolding check_tools
check_tools_iff [] = ((λ _. tt), λ _. refl)
check_tools_iff (t ∷ tools) = ground (arith, check_tools_iff tools)

IsFree-cons :
    (p q : ℕ) (name : Text) (seen : List (ℕ × Text))
    → IsFree ((q, name) ∷ seen) p ↔ ((q ≢ p) × IsFree seen p)
unfolding position_owner
IsFree-cons p q name seen = ground arith

All-IsFree-cons :
    (q : ℕ) (name : Text) (seen : List (ℕ × Text)) (ps : List ℕ)
    → All (IsFree ((q, name) ∷ seen)) ps ↔ (All (λ p. q ≢ p) ps × All (IsFree seen) ps)
All-IsFree-cons q name seen [] = ((λ _. (tt, tt)), λ _. tt)
All-IsFree-cons q name seen (p ∷ ps) =
    ground (arith, IsFree-cons p q name seen, All-IsFree-cons q name seen ps)

-- The positions still to come are free among those seen, and distinct.
abbrev pub IsPlaced : List (ℕ × Text) → List ℕ → Type 0
IsPlaced seen ps = All (IsFree seen) ps × Distinct ps

IsPlaced-position :
    (a : CommandArg) (z : ℤ) (seen : List (ℕ × Text)) (ps : List ℕ)
    → ((check_position a z seen ≡ none) × IsPlaced (see_position a z seen) ps)
      ↔ IsPlaced seen (positions_of z ps)
unfolding check_position see_position
IsPlaced-position a (negsuc p) seen ps = ground arith
IsPlaced-position a (pos zero) seen ps = ground arith
IsPlaced-position a (pos (suc p)) seen ps = ground (arith, All-IsFree-cons (suc p) a.name seen ps)

pub check_args_iff :
    (i : ℕ) (seen : List (ℕ × Text)) (args : List CommandArg)
    → (check_args i seen args ≡ none) ↔ (All IsArg args × IsPlaced seen (positions args))
unfolding check_args
check_args_iff i seen [] = ground arith
check_args_iff i seen (a ∷ args) = ground (
  arith,
  check_arg_iff i a seen,
  check_args_iff (suc i) (see_position a a.position seen) args,
  IsPlaced-position a a.position seen (positions args),
)

pub All-IsFree-nil : (ps : List ℕ) → All (IsFree []) ps
unfolding position_owner
All-IsFree-nil [] = tt
All-IsFree-nil (p ∷ ps) = (refl, All-IsFree-nil ps)

abbrev pub IsSchema : OutputSchema → Type 0
IsSchema nil = ⊥
IsSchema (str s) = s ≡ codes "text"
IsSchema (object o) = Unit
IsSchema other = ⊥

pub check_schema_iff : (o : OutputSchema) → (check_schema o ≡ none) ↔ IsSchema o
unfolding check_schema
check_schema_iff (str s) = ground (arith, equal_iff s (codes "text"))
check_schema_iff (object o) = ground arith
check_schema_iff nil = ground arith
check_schema_iff other = ground arith
