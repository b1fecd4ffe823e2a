-- ===== src/Tests/Pipelines.antt =====
-- A run of `Executor.Run`, and its theorems there.
use beadle.Prelude.{◌≡◌, ◌⊎◌, refl, [], All}
use beadle.Text.{codes}
use beadle.Daemon.Pipeline.Run.{run}
use beadle.Daemon.Pipeline.Outcome.{IsFinal, IsRegistered, run-IsFinal}
use beadle.Daemon.Pipeline.Loop.{stages_of}
use beadle.Daemon.Pipeline.Order.{IsOrdered, run-IsOrdered, run_validated}
use beadle.Tests.Data.{calls, executor, mail}

run-IsFinal_example : IsFinal (run executor (codes "p1") 0 mail (codes "hi"))
run-IsFinal_example = run-IsFinal executor refl (codes "p1") 0 mail (codes "hi")

run-IsOrdered_example : IsOrdered executor calls (run executor (codes "p1") 0 mail (codes "hi"))
run-IsOrdered_example = run-IsOrdered executor (codes "p1") 0 mail (codes "hi") {calls = calls} refl

run_validated_example :
    (stages_of (run executor (codes "p1") 0 mail (codes "hi")).events ≡ [])
    ⊎ All (IsRegistered executor) calls
run_validated_example = run_validated executor (codes "p1") 0 mail (codes "hi") {calls = calls} refl
