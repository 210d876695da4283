-- ===== src/Vspa.antt =====
-- The VSPA (DSP) side of the driver: kernel_driver/la9310shiva.
pub mod Ident
pub mod Csum
pub mod Registry
pub mod Bus
pub mod Startup
pub mod Dma
pub mod Loader
pub mod Boot
pub mod Tests
