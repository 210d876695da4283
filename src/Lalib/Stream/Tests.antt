-- ===== src/Lalib/Stream/Tests.antt =====
-- Runs of `rfnm_la9310_stream` on a platform where every step succeeds.
use la9310_driver.Base.{
  ℕ, ◌≡◌, refl, Bool, true, false, Option, none, some, [], ◌∷◌, ℤ, pos, negsuc,
}
use la9310_driver.Vspa.Registry.{
  Registry, initial, running_has, provides, select_for, pick_from, is_better,
}
use la9310_driver.Vspa.Registry.Outcome.{entry_of}
use la9310_driver.Vspa.Bus as Vspa
use la9310_driver.Vspa.Bus.{
  ◌>>=◌, ◌>>◌, return, modify, modify_reg, get_dev, reg_read, reg_write, usleep, mmio_fenced,
  readl_poll_timeout, stage_bytes, set_host_ready, alloc,
}
use la9310_driver.Vspa.Startup.{set_channels, wait_msg, startup_fail, spm_handshake, startup}
use la9310_driver.Vspa.Dma.{
  bytes_at, section_bytes, dma_raw_transmit, dma_chunk, fw_dma_loop, fw_dma_write,
}
use la9310_driver.Vspa.Loader.{
  prefix_at, type_from, section_type, overlay_from, overlay_section, lma_from, get_lma, set_overlay,
  name_overlay, place_overlay, default_overlay, after_section, note_named, write_section,
  load_typed, load_by_type, load_section, load_sections, load_vspa_image,
}
use la9310_driver.Vspa.Boot.{
  read_all, swap_forensics, until_nul, staged, park, wait_parked, claim, boot_tail, boot_fail,
  mark_booted, start_loaded, load_and_start, stage_and_load, boot_image_locked, boot_index,
  boot_selected, probe_reset, is_lighter, lightest_from, keep_selection, probe_boot,
}
use la9310_driver.Vspa.Tests.Data.{good_bus, device, image, image_ident, image_name}
use la9310_driver.Lalib.Plan.{Lanes, DcsPlan, planned, plan, tx_ladder, tx_rungs}
use la9310_driver.Lalib.Session.{
  send_with, gen_tx_init_cycle, stream_send, stream_send_locked, transmit, attempts, stream_cmd,
  wait_published, window_lifecycle, record_word, granule, granule_shift, quiesce, tdd,
  stream_reapply,
}
use la9310_driver.Lalib.Session.Tests.{Toy, toy, running}
use la9310_driver.Lalib.Word.{stream_word}
use la9310_driver.Lalib.Reset.{Platform, Drv, hard_reset, reprobe}
use la9310_driver.Lalib.Stream.{
  stream, run_plan, bring_up, reclock, publish, apply_word, cpu_qos_update,
}
use la9310_driver.Lalib.Stream.Outcome.{StreamOutcome, stream_lem}
use la9310_driver.Lalib.Stream.Kernel.{RunsBoots, stream_runs}

-- The state of a core that boots, with the images `r`.
abbrev parked : Registry → Vspa.Sys good_bus
parked r = record { hw = 0; dev = device; reg = r }

-- What a boot gives to its caller: a copy from a NULL blob ends with a code of -EIO.
abbrev ended : Registry → Toy → Option (ℤ × Vspa.Sys good_bus) → ℤ × Registry × Toy
ended r w none = (negsuc 4, r, w)
ended r w (some (rc, s)) = (rc, s.reg, w)

abbrev sound : Platform Toy
sound = record {
  modem = toy;
  hweight32 = λ (n : ℕ). n;
  stop_sm = λ (w : Toy). (pos 0, w);
  start_sm = λ (w : Toy). w;
  reset_stream_io_state = λ (w : Toy). w;
  hard_reprobe = λ (f : ℕ) (r : Registry) (w : Toy). ended r w (probe_boot (λ n. n) (parked r));
  phy_gen_bump = λ (w : Toy). w;
  vspa_core_busy = λ (w : Toy). true;
  vspa_handoff = λ (on : Bool) (w : Toy). w;
  boot_selected = λ (r : Registry) (w : Toy). ended r w (boot_selected true (parked r));
  get_dcs_freq = λ (w : Toy). 100000000;
  dcs_freq_supported = λ (f : ℕ). true;
  tx_flush_staging = λ (scrub : Bool) (w : Toy). w;
}

ended-run :
    (r : Registry) (w : Toy) (o : Option (ℤ × Vspa.Sys good_bus))
    → (ended r w o).0 ≡ pos 0
    → (t : Vspa.Sys good_bus) × (o ≡ some (pos 0, t)) × (t.reg ≡ (ended r w o).1)
ended-run r w none e = absurd (cc e)
ended-run r w (some (rc, s)) e = (s, rw e refl, refl)

sound-RunsBoots : RunsBoots good_bus sound
sound-RunsBoots = record {
  by_reprobe = λ f r w i selected inside e.
      let (t, run, out) = ended-run r w (probe_boot (λ n. n) (parked r)) e in
      (parked r, t, refl, run, out);
  by_boot = λ r w e.
      let (t, run, out) = ended-run r w (boot_selected true (parked r)) e in
      (parked r, t, refl, run, out);
}

abbrev off : Lanes
off = record { rx0 = 0; rx1 = 0; rx2 = 0; rx3 = 0 }

-- One image, for plain streaming, and a quiet session.
abbrev idle : Drv Toy
idle = record {
  sys = running (record {
    stream_word = 0;
    anchor_tick = 0;
    anchor_valid = false;
    tdd_period_chunks = 0;
    tdd_armed = false;
  });
  registry = record initial { entries = entry_of image_name image image_ident ∷ []; cnt = 1 };
  commanded_reset = false;
  selected_dcs_freq = 0;
  dcs_reclock_cnt = 0;
  tx_slot_rate_hz = 0;
  sched_anchor_step_ticks = 384;
  tx_was_on = 0;
  cpu_qos_held = false;
  reprobed = [];
}

abbrev up : DcsPlan
up = record {
  dcs_freq = 122880000;
  rx_dcs = 0;
  rx_decimation = 0;
  tx_dcs = 1;
  tx_upsampling = 1;
  caps = 1;
}

idle-planned : plan idle.registry 30720000 1 off ≡ planned up
unfolding plan tx_ladder tx_rungs
idle-planned = refl

idle-streams : (stream sound 30720000 1 off idle).0 ≡ pos 0
unfolding plan tx_ladder tx_rungs stream run_plan bring_up reclock hard_reset reprobe publish
    apply_word cpu_qos_update select_for pick_from is_better provides running_has quiesce tdd
    stream_reapply send_with gen_tx_init_cycle stream_send stream_send_locked transmit attempts
    stream_cmd wait_published window_lifecycle record_word granule granule_shift stream_word
    probe_boot keep_selection probe_reset boot_index boot_image_locked stage_and_load load_and_start
    start_loaded read_all swap_forensics mark_booted boot_fail boot_tail claim wait_parked park
    staged until_nul lightest_from is_lighter load_vspa_image load_sections load_section
    load_by_type load_typed write_section note_named after_section default_overlay place_overlay
    name_overlay set_overlay get_lma lma_from overlay_section overlay_from section_type type_from
    prefix_at startup spm_handshake startup_fail wait_msg set_channels fw_dma_write fw_dma_loop
    dma_chunk dma_raw_transmit section_bytes bytes_at ◌>>=◌ ◌>>◌ return modify modify_reg get_dev
    reg_read reg_write usleep mmio_fenced readl_poll_timeout stage_bytes set_host_ready alloc
idle-streams = refl

stream_lem_example : StreamOutcome sound 30720000 1 off idle (stream sound 30720000 1 off idle)
stream_lem_example = stream_lem sound 30720000 1 off idle

stream_runs_example : running_has (stream sound 30720000 1 off idle).1.registry 1 ≡ true
stream_runs_example =
    stream_runs good_bus sound sound-RunsBoots 30720000 1 off idle up idle-planned idle-streams
