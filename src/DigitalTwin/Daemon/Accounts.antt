-- ===== src/DigitalTwin/Daemon/Accounts.antt =====
-- The counters of the daemon, in every interleaving of its threads.
use netscope_x.DigitalTwin.Sync.{DigitalTwin}
