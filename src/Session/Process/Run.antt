-- ===== src/Session/Process/Run.antt =====
-- What `RobotProcess` makes of one message.
use robot_ddz.Prelude.{◌≡◌, List, [], ◌∷◌, ◌⊎◌}
use robot_ddz.Session.State.{init, AiOps, Robot}
use robot_ddz.Session.Wire.{Protocol}
use robot_ddz.Session.Process.{Kind, Effect, disconnect, Outcome, failed, close_connection}
use robot_ddz.Session.Process.Diagram.{Moves}

module _ {A : Type 0} (ops : AiOps A) (w : Protocol) where
  -- What one message leaves of the robot: as the message found it if no handler took it, else
  -- along the diagram, or at `init` with the connection closed.
  abbrev pub Handled : Robot A → Robot A × List Effect × Outcome → Type 0
  Handled r out =
      (out.0.status ≡ r.status) × (out.1 ≡ []) × (out.2 ≡ failed)
      ⊎ ((k : Kind) × Moves k r.status out.0.status)
      ⊎ (out.0.status ≡ init) × (out.1 ≡ disconnect ∷ []) × (out.2 ≡ close_connection)
