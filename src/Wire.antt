-- ===== src/Wire.antt =====
-- zookeeper_driver/driver/src/recordio.c: the archives that write and read the packets.
pub mod Word
pub mod OArchive
pub mod IArchive
pub mod RoundTrip
