-- ===== src/System/Queue.antt =====
-- The timer's queue in every world that the server reaches.
use server_programming.Server.Timer.Order.{IsSorted}
use server_programming.Server.World.{World}

abbrev InOrder : World → Type 0
InOrder w = IsSorted w.timers
