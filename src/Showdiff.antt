-- ===== src/Showdiff.antt =====
-- src/showdiff.cpp: the comparison of two snapshots, the event filter, and the configuration block
-- that gen_conf_block of src/conf.cpp writes.
pub mod Diff
pub mod DiffSound
pub mod Conf
pub mod ConfRoundTrip
pub mod Paths
pub mod Filter
mod Examples
