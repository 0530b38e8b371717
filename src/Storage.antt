-- ===== src/Storage.antt =====
-- pkg/storage: how the files of a partitioned table are chosen and read.
pub mod Partition
