-- ===== src/Lalib/Reset.antt =====
-- The reset of the modem and the swap of its VSPA kernel (`rfnm_hard_reset_la9310` and
-- `rfnm_vspa_kernel_swap` of kernel_driver/la9310rfnm/la9310_rfnm.c), which end the session. The
-- stream state machine, the reprobe and the boot are an interface; the works and the lock serialise
-- callers and are left out. The callbacks are registered: their owner makes these calls.
pub mod Effect
use la9310_driver.Base.{
  ℕ, Bool, true, false, not, ◌&&◌, List, ◌∷◌, ◌==◌, if◌then◌else◌, ℤ, pos, neg, is_zero,
}
use la9310_driver.Vspa.Registry.{Registry, select_for}
use la9310_driver.Lalib.Session.{Modem, Sys, quiesce}

pub record Platform (W : Type 0) : Type 0 where
  pub modem : Modem W
  pub hweight32 : ℕ → ℕ
  pub stop_sm : W → ℤ × W
  pub start_sm : W → W
  pub reset_stream_io_state : W → W
  pub hard_reprobe : ℕ → Registry → W → ℤ × Registry × W
  pub phy_gen_bump : W → W
  pub vspa_core_busy : W → Bool
  pub vspa_handoff : Bool → W → W
  pub boot_selected : Registry → W → ℤ × Registry × W
  -- rfnm_si5510_get_dcs_freq and rfnm_si5510_dcs_freq_supported
  pub get_dcs_freq : W → ℕ
  pub dcs_freq_supported : ℕ → Bool
  pub tx_flush_staging : Bool → W → W

-- The driver: the session, the images, and what `rfnm_la9310_stream` publishes. `reprobed` lists the
-- clocks that the modem was reprobed at, the last one first; the code does not keep it.
pub record Drv (W : Type 0) : Type 0 where
  pub sys : Sys W
  pub registry : Registry
  pub commanded_reset : Bool
  pub selected_dcs_freq : ℕ
  pub dcs_reclock_cnt : ℕ
  pub tx_slot_rate_hz : ℕ
  pub sched_anchor_step_ticks : ℕ
  pub tx_was_on : ℕ
  pub cpu_qos_held : Bool
  pub reprobed : List ℕ

module _ {W : Type 0} (pf : Platform W) where
  -- A step of the outside.
  abbrev pub outside : (W → W) → Drv W → Drv W
  outside f d = record d { sys = record d.sys { world = f d.sys.world } }

  abbrev pub quiesced : Drv W → Drv W
  quiesced d = record d { sys = quiesce pf.modem d.sys }

  abbrev pub stopped : Drv W → ℤ × Drv W
  stopped d = let (ret, w) = pf.stop_sm d.sys.world in (ret, outside (λ (_ : W). w) d)

  -- The reprobe, and the start of the next session.
  unfoldable pub reprobe : ℕ → Drv W → ℤ × Drv W
  reprobe dcs_freq d =
      let d₁ = outside pf.reset_stream_io_state d in
      let (ret, registry, w) = pf.hard_reprobe dcs_freq d₁.registry d₁.sys.world in
      let d₂ = record (outside (λ (_ : W). w) d₁) {
        registry = registry;
        reprobed = dcs_freq ∷ d₁.reprobed;
      } in
      if not (is_zero ret)
      then (ret, d₂)
      else (ret, outside (λ w. pf.start_sm (pf.phy_gen_bump (pf.reset_stream_io_state w))) d₂)

  unfoldable pub hard_reset : ℕ → Drv W → ℤ × Drv W
  hard_reset dcs_freq d =
      if dcs_freq == 0
      then (neg 22, d)
      else (let (ret, d₁) = stopped (quiesced (record d { commanded_reset = true })) in
          let (ret', d₂) = if not (is_zero ret) then (ret, d₁) else reprobe dcs_freq d₁ in
          (ret', record d₂ { commanded_reset = false }))

  -- The choice of an image and its boot on the parked core.
  unfoldable pub swap_image : ℕ → Drv W → ℤ × Drv W
  swap_image caps d =
      let (ret, registry) = select_for pf.hweight32 caps d.registry in
      let d₁ = record d { registry = registry } in
      if not (is_zero ret)
      then (ret, d₁)
      else (let (ret', registry', w) = pf.boot_selected d₁.registry d₁.sys.world in
          (ret', record (outside (λ (_ : W). w) d₁) { registry = registry' }))

  unfoldable pub kernel_swap : ℕ → Drv W → ℤ × Drv W
  kernel_swap caps d =
      let d₁ = if pf.vspa_core_busy d.sys.world then outside pf.modem.msleep (quiesced d) else d in
      let (ret, d₂) = stopped d₁ in
      if not (is_zero ret)
      then (ret, d₂)
      else (let d₃ = outside (λ w. pf.vspa_handoff true (pf.reset_stream_io_state w)) d₂ in
          let (ret', d₄) = swap_image caps d₃ in
          (
            ret',
            outside (λ w. pf.start_sm (pf.reset_stream_io_state (pf.vspa_handoff false w))) d₄,
          ))
