-- ===== src/Lalib/Stream.antt =====
-- `rfnm_la9310_stream` (kernel_driver/la9310rfnm/rfnm_lalib.c): plan a rate, bring the clock and the
-- VSPA kernel to the plan, publish what follows from it, and send the stream word.
pub mod BringUp
pub mod Kernel
pub mod Outcome
mod Tests
use la9310_driver.Base.{
  ℕ, ◌+◌, ◌*◌, ◌/◌, ◌%◌, ◌^◌, Bool, true, false, not, ◌&&◌, ◌||◌, ltb, ◌==◌, if◌then◌else◌, ℤ, pos,
  neg, is_zero,
}
use la9310_driver.Vspa.Registry.{Registry, select_for, running_has}
use la9310_driver.Lalib.Plan.{
  Lanes, DcsPlan, PlanResult, planned, refused, plan, any_rx, dcs_max, dcs_min, einval,
}
use la9310_driver.Lalib.Word.{stream_word}
use la9310_driver.Lalib.Session.{Sys, with_word, stream_send}
use la9310_driver.Lalib.Reset.{Platform, Drv, outside, hard_reset, kernel_swap}

-- rfnm_cpu_qos_update: is the request held afterwards?
unfoldable pub cpu_qos_update : Bool → Bool → Bool
cpu_qos_update streaming held =
    if streaming && not held then true else (if not streaming && held then false else held)

module _ {W : Type 0} (pf : Platform W) where
  abbrev pub forget_word : Drv W → Drv W
  forget_word d = record d { sys = with_word d.sys 0 }

  -- rfnm_vspa_select_for
  abbrev pub select : ℕ → Drv W → ℤ × Drv W
  select caps d =
      let (ret, registry) = select_for pf.hweight32 caps d.registry in
      (ret, record d { registry = registry })

  -- Bring the modem to another clock.
  unfoldable pub reclock : DcsPlan → Drv W → ℤ × Drv W
  reclock p d =
      if ltb p.dcs_freq dcs_min || ltb dcs_max p.dcs_freq
      then (einval, d)
      else if not (pf.dcs_freq_supported p.dcs_freq)
      then (einval, d)
      else (let (ret, d₁) = select p.caps d in
          if not (is_zero ret)
          then (ret, d₁)
          else (let (ret', d₂) = hard_reset pf p.dcs_freq d₁ in
              if not (is_zero ret') then (ret', d₂) else (
                pos 0,
                record (forget_word d₂) {
                  selected_dcs_freq = p.dcs_freq;
                  dcs_reclock_cnt = (d₂.dcs_reclock_cnt + 1) % 2 ^ 32;
                },
              )))

  -- Bring another VSPA kernel in on the same clock: the swap, and the reset where that fails.
  unfoldable pub change_kernel : DcsPlan → Drv W → ℤ × Drv W
  change_kernel p d =
      let (ret, d₁) = kernel_swap pf p.caps d in
      let (ret', d₂) = select p.caps d₁ in
      let (ret'', d₃) =
        if not (is_zero ret)
        then (if not (is_zero ret') then (ret', d₂) else hard_reset pf p.dcs_freq d₂)
        else (ret, d₁) in
      if not (is_zero ret'') then (ret'', d₃) else (pos 0, forget_word d₃)

  unfoldable pub bring_up : DcsPlan → Drv W → ℤ × Drv W
  bring_up p d =
      if not (p.dcs_freq == d.selected_dcs_freq)
      then reclock p d
      else (if not (running_has d.registry p.caps) then change_kernel p d else (pos 0, d))

  -- What is published of a plan that the modem runs.
  unfoldable pub publish : ℕ → ℕ → Lanes → DcsPlan → Drv W → Drv W
  publish rate tx rx p d =
      let d₁ = record d {
        tx_slot_rate_hz = if tx == 0 then 0 else rate / 256;
        sched_anchor_step_ticks =
            384 * 2 ^ (if not (p.rx_dcs == 0) || not (p.tx_dcs == 0) then 1 else 0);
      } in
      let d₂ = if tx == d₁.tx_was_on then d₁ else outside pf (pf.tx_flush_staging (tx == 0)) d₁ in
      record d₂ {
        tx_was_on = tx;
        cpu_qos_held = cpu_qos_update (not (tx == 0) || any_rx rx) d₂.cpu_qos_held;
      }

  unfoldable pub apply_word : ℕ → Drv W → ℤ × Drv W
  apply_word t d =
      if t == d.sys.session.stream_word
      then (pos 0, d)
      else (let (ret, s) = stream_send pf.modem t d.sys in (ret, record d { sys = s }))

  unfoldable pub run_plan : ℕ → ℕ → Lanes → DcsPlan → Drv W → ℤ × Drv W
  run_plan rate tx rx p d =
      let (ret, d₁) = bring_up p d in
      if not (is_zero ret)
      then (ret, d₁)
      else apply_word (stream_word tx rx p) (publish rate tx rx p d₁)

  unfoldable pub stream : ℕ → ℕ → Lanes → Drv W → ℤ × Drv W
  stream rate tx rx d =
      let d₁ = record d { selected_dcs_freq = pf.get_dcs_freq d.sys.world } in
      elim (plan d₁.registry rate tx rx) [
        | planned p ↦ run_plan rate tx rx p d₁
        | refused e ↦ (e, d₁)
      ]
