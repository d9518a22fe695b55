-- ===== src/Source.antt =====
-- src/source: where the records come from.
pub mod File
pub mod Rabbit
pub mod RabbitConn
