-- ===== src/Lib.antt =====
-- A verification library of the LA9310 driver (kernel_driver).
--
-- The driver has two kernel modules. kernel_driver/la9310shiva owns the LA9310 over PCIe: it loads
-- and boots the VSPA, the signal processor of the chip, and has a watchdog for the modem.
-- kernel_driver/la9310rfnm streams samples and controls the daughterboards; its receive levelling
-- adjusts the gain. Modelled here:
--
--   Base           the names that all parts share, with a machine `int` (Base/Int.antt) and reads that
--                  may leave a buffer (Base/Fault.antt).
--   Vspa.Ident     rfnm_vspa_find_ident of la9310shiva/la9310_vspa_registry.c: the walk over an ELF
--                  image to its identity section. A read outside the image is `none`.
--   Vspa.Csum      rfnm_vspa_wordsum of the same file.
--   Vspa.Registry  the registry of images there: rfnm_vspa_registry_register (`register`), the
--                  queries rfnm_vspa_registry_has, rfnm_vspa_running_has and rfnm_vspa_parked, and
--                  rfnm_vspa_select_for (`select_for`). The file's static variables are the record
--                  `Registry`.
--   Vspa.Bus       the device: struct vspa_device of la9310shiva/la9310_vspa.h as the record `Dev`,
--                  and a hardware that is a parameter, the record `Bus`, with any type of states. A
--                  piece of the driver is a function of the whole state, the type `M`.
--   Vspa.Startup   startup of la9310shiva/la9310_main_vspa.c.
--   Vspa.Dma       dma_raw_transmit, vspa_fw_dma_write and vspa_mem_initialization there.
--   Vspa.Loader    la9310_load_vspa_image there, with its section loop.
--   Vspa.Boot      rfnm_vspa_boot_image_locked, rfnm_vspa_boot_selected and rfnm_vspa_probe_boot of
--                  la9310_vspa_registry.c, which use the four parts before. A copy from a NULL blob
--                  is `none`.
--   Wdog           la9310shiva/la9310_wdog.c: the interrupt, the poll and the commands (Wdog.antt), the
--                  character devices (Wdog/Cdevs.antt), the start and the end (Wdog/Life.antt). The
--                  outcomes of the kernel's calls are the parameter `Calls`, with NULL, an error pointer
--                  or an object where a pointer comes back (`Ptr`). What the driver holds of the kernel
--                  is counted in the record `Kernel`, which has the interrupt too that the last probe
--                  of the modem noted (wdog_msi_irq of la9310_base.c).
--   Agc            la9310rfnm/rfnm_agc.c: the measurement of a slot and the gain step (Agc.antt), and
--                  agc_poll (Agc/Poll.antt). The daughterboard layer and the clock are the
--                  parameter `Layer`.
--   Board          la9310rfnm/rfnm_daughterboard.c: the settings of channels, their validation and the
--                  flags of the streams (Board.antt), the works that apply a list of channels
--                  (Board/Apply.antt) and rfnm_set_samp_rate_user (Board/Rate.antt). The drivers of
--                  the boards and the streaming library are parameters of the works, and the sample
--                  rate is checked by Lalib.Plan.
--   Lalib.Plan     the clock planner of la9310rfnm/rfnm_lalib.c (rfnm_la9310_plan and
--                  rfnm_la9310_samp_rate_ok): the clock and the chain for a sample rate.
--   Lalib.Word     the 32-bit stream word there, packed and read back.
--   Lalib.Mailbox  rf_send_swcmd there: one command to the modem and its answer.
--   Lalib.Session  struct rfnm_session and what changes it: the sender of stream words
--                  (__rfnm_la9310_stream_send is `send_with`), its init cycle, the restart works,
--                  rfnm_la9310_txn, rfnm_la9310_tdd and rfnm_la9310_quiesce. The mailbox, the
--                  modem's epochs and the real-time ring are the parameter `Modem`.
--   Lalib.Reset    rfnm_hard_reset_la9310 and rfnm_vspa_kernel_swap of la9310rfnm/la9310_rfnm.c, which
--                  end the session, select an image by Vspa.Registry and boot it. The state machine,
--                  the reprobe and the boot are the parameter `Platform`. Lalib/Stream/Kernel.antt takes
--                  a boot and a reprobe with code 0 for runs of the boots of Vspa.Boot.
--   Lalib.Stream   rfnm_la9310_stream (`stream`), which joins the four parts before.
--   Lalib.Death    rfnm_la9310_arm_death_check, the detector of stuck channels.
--   Lalib.Vwin     the queue of transmit windows with its pump. The ring, the mailbox and the phy timer
--                  are the parameter `Air`.
--   Rfnm.Clock     the absolute time of la9310rfnm/la9310_rfnm.c: the extended clock, its timer and the
--                  generations.
--   Rfnm.Pool      the pools of packets there, and the calls of the data endpoint (Rfnm/Pool/Calls.antt):
--                  rfnm_dev_ioctl, rfnm_dev_open and rfnm_dev_release.
--   Rfnm.Consumer  the consumer of transmit packets there, in rfnm_handler_out: the judgement of a stamp
--                  (Consumer.antt), and the place of a packet in the ring and in a window
--                  (Consumer/Place.antt). The status of the firmware and the sink of windows are the
--                  parameter `Env`.
--   IrqMux         la9310shiva/la9310_irq_mux.c: the handler's scan of the status words, the masks, and
--                  what la9310_request_irq and la9310_clean_request_irq hold.
--
-- The modules below a part hold its theorems, and the modules named Tests hold runs at concrete values.
--
-- Loops are structural recursion on the number of rounds that are left. The loop of
-- vspa_fw_dma_write has as fuel one more than the section's size, and the loop that sizes an attack
-- step 11 rounds, which is enough below 2040 counts. Words wrap around where the source's do. The
-- capability masks use the bit operations of the native numbers. The window pump has as fuel the
-- number of windows that wait, which is enough, and the sender makes at most two attempts. A list of
-- what was sent or reprobed stands in some states for the theorems alone, and is named where it is
-- declared.
--
-- Not modelled: messages, and the register reads that are made for a message alone but those of a
-- boot from the registry; memory barriers and locks, since each operation is one step here; a write past the three entries of overlay_sec;
-- the sysfs output. The works of the stream side run between two calls, and their scheduling is a
-- flag. Of la9310rfnm/la9310_rfnm.c, the pacing and the place of the DAC that the consumer waits for,
-- the producer of received packets and the packing of samples are not modelled, since they stand on
-- memory that the firmware writes. The other files of kernel_driver are not modelled: the PCI and IPC
-- glue of la9310shiva, and of la9310rfnm the transports, the drivers of the boards, and of their layer
-- the registration, the sysfs files and the entry points for gain and DC; nor are the debugfs files of
-- rfnm_lalib.c and the producer of its command ring, whose header is not in the repository.
pub mod Base
pub mod Vspa
pub mod Wdog
pub mod Agc
pub mod Board
pub mod Lalib
pub mod Rfnm
pub mod IrqMux
