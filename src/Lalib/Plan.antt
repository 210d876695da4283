-- ===== src/Lalib/Plan.antt =====
-- The clock planner (`rfnm_la9310_plan` of kernel_driver/la9310rfnm/rfnm_lalib.c): which DCS
-- clock and which chain serve a sample rate. A refusal carries the error code.
pub mod Receive
pub mod Range
pub mod Transmit
pub mod Duplex
pub mod Window
mod Tests
use la9310_driver.Base.{
  ℕ, zero, suc, ◌+◌, ◌*◌, ◌%◌, ◌^◌, Bool, true, false, not, ◌&&◌, ◌||◌, Option, none, some, ltb,
  leb, ◌==◌, if◌then◌else◌, ℤ, neg,
}
use la9310_driver.Vspa.Registry.{Registry, registry_has, cap_streaming_base}

-- `x << k` of a 64-bit word.
abbrev pub shl64 : ℕ → ℕ → ℕ
shl64 x k = (x * 2 ^ k) % 2 ^ 64

-- RFNM_LA9310_DCS_MAX_HZ, RFNM_LA9310_DCS_MIN_HZ and RFNM_VSPA_CAP_FDX_CONCURRENT
abbrev pub dcs_max : ℕ
dcs_max = 200000000

abbrev pub dcs_min : ℕ
dcs_min = 100000000

abbrev pub cap_fdx_concurrent : ℕ
cap_fdx_concurrent = 4

pub record DcsPlan : Type 0 where
  pub dcs_freq : ℕ
  pub rx_dcs : ℕ
  pub rx_decimation : ℕ
  pub tx_dcs : ℕ
  pub tx_upsampling : ℕ
  pub caps : ℕ

pub data PlanResult : Type 0 where
  planned : DcsPlan → PlanResult
  refused : ℤ → PlanResult

-- The receive enables `rx[0]` to `rx[3]`.
pub record Lanes : Type 0 where
  pub rx0 : ℕ
  pub rx1 : ℕ
  pub rx2 : ℕ
  pub rx3 : ℕ

abbrev pub einval : ℤ
einval = neg 22

-- `f <= ceiling && f >= RFNM_LA9310_DCS_MIN_HZ`
abbrev pub within : ℕ → ℕ → Bool
within ceiling f = leb f ceiling && leb dcs_min f

-- A rung of a ladder: the DCS clock, the divide-by-2 and the stages.
pub record Rung : Type 0 where
  pub freq : ℕ
  pub dcs : ℕ
  pub stages : ℕ

-- The ceiling on the clock at depth `k` in a pass.
abbrev pub dcs_ceiling : ℕ → ℕ → ℕ
dcs_ceiling pass k = if leb 6 k && (pass == 0) then 100000000 else dcs_max

-- The receive ladder at depth `k`.
unfoldable pub rx_rung : ℕ → ℕ → ℕ → Option Rung
rx_rung pass rate k =
    let f = shl64 rate (k + 1) in
    if within (dcs_ceiling pass k) f && leb 3 k
    then some (record { freq = f; dcs = 1; stages = k })
    else (let g = shl64 rate k in
        if leb k 3 && within dcs_max g
        then some (record { freq = g; dcs = 0; stages = k })
        else none)

abbrev pub or_else : Option Rung → Option Rung → Option Rung
or_else none o = o
or_else (some r) o = some r

-- One pass, from depth `k` down to 0.
unfoldable pub rx_pass : ℕ → ℕ → ℕ → Option Rung
rx_pass pass rate zero = rx_rung pass rate 0
rx_pass pass rate (suc k) = or_else (rx_rung pass rate (suc k)) (rx_pass pass rate k)

unfoldable pub rx_ladder : ℕ → Option Rung
rx_ladder rate = or_else (rx_pass 0 rate 8) (rx_pass 1 rate 8)

-- The transmit ladder, from `u` stages up, `n` rungs.
unfoldable pub tx_rungs : ℕ → ℕ → ℕ → Option Rung
tx_rungs rate u zero = none
tx_rungs rate u (suc n) =
    let f = shl64 rate (u + 1) in
    let rest = tx_rungs rate (u + 1) n in
    if within dcs_max f then some (record { freq = f; dcs = 1; stages = u }) else rest

unfoldable pub tx_ladder : ℕ → Option Rung
tx_ladder rate =
    or_else (tx_rungs rate 0 9)
      (if within dcs_max rate then some (record { freq = rate; dcs = 0; stages = 0 }) else none)

abbrev pub rx_plan : Option Rung → PlanResult
rx_plan none = refused einval
rx_plan (some r) = planned (record {
  dcs_freq = r.freq;
  rx_dcs = r.dcs;
  rx_decimation = r.stages;
  tx_dcs = 0;
  tx_upsampling = 0;
  caps = cap_streaming_base;
})

abbrev pub tx_plan : Option Rung → PlanResult
tx_plan none = refused einval
tx_plan (some r) = planned (record {
  dcs_freq = r.freq;
  rx_dcs = 0;
  rx_decimation = 0;
  tx_dcs = r.dcs;
  tx_upsampling = r.stages;
  caps = cap_streaming_base;
})

-- Transmission and reception at once.
unfoldable pub duplex_plan : Registry → ℕ → PlanResult
duplex_plan reg rate =
    let f = shl64 rate 2 in
    if registry_has reg cap_fdx_concurrent && ((f == 100000000) || (f == 122880000))
    then planned (record {
      dcs_freq = f;
      rx_dcs = 1;
      rx_decimation = 1;
      tx_dcs = 1;
      tx_upsampling = 1;
      caps = cap_streaming_base + cap_fdx_concurrent;
    })
    else (let g = shl64 rate 1 in
        if ltb g dcs_min || ltb dcs_max g
        then refused einval
        else planned (record {
          dcs_freq = g;
          rx_dcs = 1;
          rx_decimation = 0;
          tx_dcs = 1;
          tx_upsampling = 0;
          caps = cap_streaming_base;
        }))

-- `rx[0] || rx[1] || rx[2] || rx[3]`
abbrev pub any_rx : Lanes → Bool
any_rx l = not (l.rx0 == 0) || not (l.rx1 == 0) || not (l.rx2 == 0) || not (l.rx3 == 0)

unfoldable pub plan : Registry → ℕ → ℕ → Lanes → PlanResult
plan reg rate tx rx =
    if tx == 0
    then rx_plan (rx_ladder rate)
    else (if any_rx rx then duplex_plan reg rate else tx_plan (tx_ladder rate))

-- Which DCS clocks the clock generator makes is another driver's.
unfoldable pub samp_rate_ok : (ℕ → Bool) → Registry → ℕ → Bool
samp_rate_ok dcs_freq_supported reg rate =
    elim (plan reg rate 0 (record { rx0 = 1; rx1 = 0; rx2 = 0; rx3 = 0 })) [
      | planned p ↦ dcs_freq_supported p.dcs_freq
      | refused e ↦ false
    ]
