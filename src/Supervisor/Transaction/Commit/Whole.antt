-- ===== src/Supervisor/Transaction/Commit/Whole.antt =====
-- The whole of `switch_subscription_locked` of src/supervisor.rs is all or nothing.
use causeway.Prelude.Text.{Text}
use causeway.Prelude.Result.{Result}
use causeway.Supervisor.Transaction.Daemon.{Daemon}
