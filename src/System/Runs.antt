-- ===== src/System/Runs.antt =====
-- The runs of the server: its threads take turns, in any order.
use server_programming.Base.{ℕ, ◌≡◌, Bool, some}
use server_programming.Server.DbHandler.{Database}
use server_programming.Server.World.{World}
use server_programming.Server.Completion.{Operation, network_step, timer_step, start}

-- One step: a thread handles a completed operation or a due timer event, or time passes.
pub data Step (w : World) : World → Type 0 where
  network :
      (fuel : ℕ) (success : Bool) (op : Operation) (id : ℕ) {w' : World}
      → network_step fuel w success op id ≡ some w'
      → Step w w'
  timer : Step w (timer_step w)
  pass : (t : ℕ) → Step w (record w { now = t })

-- What the server can become after its start
pub data Reached (database : Database) (rand : ℕ → ℕ) (now : ℕ) : World → Type 0 where
  begin : Reached database rand now (start database rand now)
  next : {w w' : World} → Reached database rand now w → Step w w' → Reached database rand now w'
