-- ===== src/Rfnm.antt =====
-- The sample streaming of kernel_driver/la9310rfnm/la9310_rfnm.c: the absolute time, the pools of
-- packets, and the consumer of transmit packets.
pub mod Clock
pub mod Pool
pub mod Consumer
