-- ===== src/Player/Runs.antt =====
-- The pending inputs over sequences of updates and server states.
use jam_client_prototype.Player.{Player}
