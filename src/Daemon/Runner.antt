-- ===== src/Daemon/Runner.antt =====
-- internal/daemon/runner.go: the whitelist of binaries, the environment and the arguments of a
-- process, and `CLIRunner.Run`. What the processes do is the record `Processes`.
pub mod Capped
pub mod Run
pub mod Started
use beadle.Prelude.{
  ℕ, zero, suc, ◌+◌, ◌-◌, ◌*◌, Bool, true, false, not, ◌&&◌, ◌||◌, List, [], ◌∷◌, ◌++◌, map, Option,
  none, some, Result, ok, err, if◌then◌else◌, is_nil, length, take, ltb, leb,
}
use beadle.Prelude.Int.{ℤ, pos, negsuc, is_positive}
use beadle.Text.{Text, codes, join, lookup, member, trim_space}
use beadle.Utf8.{Bytes}
use beadle.Daemon.Command.{Command, CommandArg, Step}
use beadle.Daemon.Call.{Args, Value}

-- `readCapped`: the bytes that a reader gives, and whether it ends in an error rather than at the end
-- of the file. `none` is the error; the number is what was discarded.
pub record Reader : Type 0 where
  pub bytes : Bytes
  pub fails : Bool

unfoldable pub read_capped : Reader → ℕ → Option (Bytes × ℕ)
read_capped r n =
    if r.fails && ltb (length r.bytes) n then none else some (take n r.bytes, length r.bytes - n)

-- `cappedWriter` and its methods.
pub record CappedWriter : Type 0 where
  pub buf : Bytes
  pub max : ℕ
  pub total : ℕ

unfoldable pub write_capped : CappedWriter → Bytes → CappedWriter
write_capped w p =
    let remaining = w.max - length w.buf in
    record w {
      buf = if ltb 0 remaining then w.buf ++ take remaining p else w.buf;
      total = w.total + length p;
    }

unfoldable pub write_all : CappedWriter → List Bytes → CappedWriter
unfolding write_capped
write_all w [] = w
write_all w (p ∷ ps) = write_all (write_capped w p) ps

unfoldable pub dropped : CappedWriter → ℕ
dropped w = if ltb w.max w.total then w.total - w.max else 0

abbrev pub output_cap : ℕ
output_cap = 1024 * 1024

-- What `os.Stat`, `filepath.EvalSymlinks`, `filepath.Join` and `filepath.Dir` answer.
pub record FileInfo : Type 0 where
  pub is_dir : Bool
  pub is_executable : Bool

pub record FileSystem : Type 0 where
  pub stat : Text → Option FileInfo
  pub eval_symlinks : Text → Option Text
  pub join_path : Text → Text → Text
  pub dir_of : Text → Text

pub data RunnerError : Type 0 where
  dangling outside not_found : RunnerError
  missing_env : List Text → RunnerError
  not_started wait_failed read_failed : RunnerError

-- The entries that the loop of `Resolve` passes over.
abbrev usable : Option FileInfo → Bool
usable none = false
usable (some i) = not i.is_dir && i.is_executable

abbrev check_resolved : FileSystem → List Text → Option Text → Result RunnerError Text
check_resolved fs dirs none = err dangling
check_resolved fs dirs (some path) = if member (fs.dir_of path) dirs then ok path else err outside

-- `BinaryWhitelist.Resolve`, for the directories that are still to be searched.
unfoldable pub resolve_from : FileSystem → List Text → Text → List Text → Result RunnerError Text
unfolding member
resolve_from fs dirs name [] = err not_found
resolve_from fs dirs name (dir ∷ rest) =
    let next = resolve_from fs dirs name rest in
    let candidate = fs.join_path dir name in
    if usable (fs.stat candidate) then check_resolved fs dirs (fs.eval_symlinks candidate) else next

unfoldable pub resolve : FileSystem → List Text → Text → Result RunnerError Text
unfolding resolve_from
resolve fs dirs name = resolve_from fs dirs name dirs

-- `minimalEnv`, with the daemon's environment as a function: the variables, and the names missing.
abbrev add_var : Text → Option Text → List Text × List Text → List Text × List Text
add_var name (some v) (env, missing) = ((name ++ (codes "=" ++ v)) ∷ env, missing)
add_var name none (env, missing) = (env, name ∷ missing)

unfoldable pub declared_env : (Text → Option Text) → List Text → List Text × List Text
declared_env getenv [] = ([], [])
declared_env getenv (name ∷ names) = add_var name (getenv name) (declared_env getenv names)

abbrev pub or_empty : Option Text → Text
or_empty none = []
or_empty (some v) = v

unfoldable pub minimal_env : (Text → Option Text) → List Text → List Text → List Text × List Text
unfolding declared_env join
minimal_env getenv dirs names =
    let (env, missing) = declared_env getenv names in
    (
      (codes "PATH=" ++ join (codes ":") dirs)
          ∷ (codes "HOME=" ++ or_empty (getenv (codes "HOME")))
          ∷ (codes "USER=" ++ or_empty (getenv (codes "USER")))
          ∷ env,
      missing,
    )

-- `envForCommand`.
unfoldable pub env_for_command :
    (Text → Option Text) → Command → List Text → Result RunnerError (List Text)
unfolding minimal_env
env_for_command getenv cmd dirs =
    let (env, missing) = minimal_env getenv dirs cmd.env_vars in
    if is_nil missing then ok env else err (missing_env missing)

-- `parseTimeout`, in nanoseconds.
abbrev pub default_timeout : ℤ
default_timeout = pos (30 * 1000000000)

unfoldable pub parse_timeout : (Text → Option ℤ) → Command → ℤ
parse_timeout parse_duration cmd =
    if is_nil cmd.timeout
    then default_timeout
    else elim (parse_duration cmd.timeout) [ none ↦ default_timeout | some d ↦ d ]

-- The value of a declared argument: the call's, or that of the pipe's JSON object.
unfoldable pub value_of : Args → Option Args → CommandArg → Option Value
unfolding lookup
value_of args pipe_fields decl = elim (lookup decl.name args) [
  | some v ↦ some v
  | none ↦ elim pipe_fields [ none ↦ none | some fields ↦ lookup decl.name fields ]
]

-- The loop over the declared arguments: those by name, and those by position. `print` is
-- `fmt.Sprint`.
abbrev add_arg :
    (Value → Text)
    → CommandArg
    → Option Value
    → List Text × List (ℤ × Text)
    → List Text × List (ℤ × Text)
add_arg print decl none (named, positional) = (named, positional)
add_arg print decl (some v) (named, positional) =
    if is_positive decl.position
    then (named, (decl.position, print v) ∷ positional)
    else ((codes "--" ++ (decl.name ++ (codes "=" ++ print v))) ∷ named, positional)

unfoldable pub collect_args :
    (Value → Text) → Args → Option Args → List CommandArg → List Text × List (ℤ × Text)
unfolding value_of
collect_args print args pipe_fields [] = ([], [])
collect_args print args pipe_fields (decl ∷ decls) =
    add_arg print decl (value_of args pipe_fields decl) (collect_args print args pipe_fields decls)

-- `sort.Slice` by position; `ValidateCommand` makes sure that no two are equal.
abbrev position_le : ℤ → ℤ → Bool
position_le (pos a) (pos b) = leb a b
position_le (pos a) (negsuc b) = false
position_le (negsuc a) (pos b) = true
position_le (negsuc a) (negsuc b) = leb b a

unfoldable pub insert_positional : ℤ × Text → List (ℤ × Text) → List (ℤ × Text)
insert_positional (p, v) [] = (p, v) ∷ []
insert_positional (p, v) ((q, w) ∷ rest) =
    let behind = insert_positional (p, v) rest in
    if position_le p q then (p, v) ∷ (q, w) ∷ rest else (q, w) ∷ behind

unfoldable pub sort_positional : List (ℤ × Text) → List (ℤ × Text)
unfolding insert_positional
sort_positional [] = []
sort_positional (x ∷ xs) = insert_positional x (sort_positional xs)

unfoldable pub process_args : (Value → Text) → Command → Args → Option Args → List Text
unfolding collect_args sort_positional
process_args print cmd args pipe_fields =
    let (named, positional) = collect_args print args pipe_fields cmd.args in
    cmd.fixed_args ++ (named ++ map (λ x. x.1) (sort_positional positional))
