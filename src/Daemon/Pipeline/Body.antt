-- ===== src/Daemon/Pipeline/Body.antt =====
-- The email body that a run of `Executor.Run` (internal/daemon/pipeline.go) carries to its stages.
use beadle.Prelude.{◌≤◌, ◌≡◌, ◌≢◌, ◌↔◌, false, Result, ok, err, All, length}
use beadle.Text.{Text}
use beadle.Daemon.Command.{Command}
use beadle.Daemon.Pipeline.Types.{Pipeline, Executor, Progress, RunResult}

-- The same email, the same body and the same flags.
pub record Same (p q : Pipeline) : Type 0 where
  pub email_eq : q.email ≡ p.email
  pub body_eq : q.body ≡ p.body
  pub truncated_eq : q.body_truncated ≡ p.body_truncated
  pub sanitized_eq : q.body_sanitized ≡ p.body_sanitized

module _ (e : Executor) (p : Pipeline) where
  abbrev Keeps : Result RunResult Progress → Type 0
  Keeps (ok s) = Same p s.pipeline
  Keeps (err r) = Same p r.pipeline

abbrev IsPrepared : Text → Pipeline → Type 0
IsPrepared clean p =
    (length p.body ≤ 500)
    × All (λ c. c ≢ 0) p.body
    × ((p.body_truncated ≡ false) ↔ (p.body ≡ clean))
