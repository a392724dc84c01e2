-- ===== src/Partition/Shutdown.antt =====
-- The shutdown of a partition of partition.rs on a disk that does not fail.
use kafko.Record.{Record}
