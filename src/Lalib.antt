-- ===== src/Lalib.antt =====
-- The stream side of the driver (kernel_driver/la9310rfnm/rfnm_lalib.c): the clock planner, the
-- stream word, the session and the detector of stuck channels.
pub mod Plan
pub mod Word
pub mod Mailbox
pub mod Session
pub mod Reset
pub mod Stream
pub mod Death
pub mod Vwin
