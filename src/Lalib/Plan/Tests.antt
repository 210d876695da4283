-- ===== src/Lalib/Plan/Tests.antt =====
-- Runs of the clock planner.
use la9310_driver.Base.{◌≤◌, ◌≡◌, ◌↔◌, refl, true, arith}
use la9310_driver.Vspa.Registry.{initial}
use la9310_driver.Lalib.Plan.{
  Lanes, planned, refused, plan, rx_ladder, rx_pass, rx_rung, tx_ladder, tx_rungs, samp_rate_ok,
  einval,
}
use la9310_driver.Lalib.Plan.Range.{RxOutcome, IsPlanned, plan_receive, plan_range}
use la9310_driver.Lalib.Plan.Transmit.{TxOutcome, plan_transmit}

abbrev off : Lanes
off = record { rx0 = 0; rx1 = 0; rx2 = 0; rx3 = 0 }

abbrev lane_a : Lanes
lane_a = record { rx0 = 1; rx1 = 0; rx2 = 0; rx3 = 0 }

-- The deepest rate, for which the first pass has no rung.
plan_deep :
    plan initial 240000 0 lane_a
    ≡ planned (record {
      dcs_freq = 122880000;
      rx_dcs = 1;
      rx_decimation = 8;
      tx_dcs = 0;
      tx_upsampling = 0;
      caps = 1;
    })
unfolding plan rx_ladder rx_pass rx_rung
plan_deep = refl

plan_slow : plan initial 195312 0 lane_a ≡ refused einval
unfolding plan rx_ladder rx_pass rx_rung
plan_slow = refl

plan_up :
    plan initial 30720000 1 off
    ≡ planned (record {
      dcs_freq = 122880000;
      rx_dcs = 0;
      rx_decimation = 0;
      tx_dcs = 1;
      tx_upsampling = 1;
      caps = 1;
    })
unfolding plan tx_ladder tx_rungs
plan_up = refl

rate_ok : samp_rate_ok (λ f. true) initial 61440000 ≡ true
unfolding samp_rate_ok plan rx_ladder rx_pass rx_rung
rate_ok = refl

plan_receive_example : RxOutcome 240000 (plan initial 240000 0 lane_a)
plan_receive_example = plan_receive initial 240000 lane_a

plan_range_example :
    IsPlanned (plan initial 7680000 0 lane_a) ↔ ((195313 ≤ 7680000) × (7680000 ≤ 200000000))
plan_range_example = plan_range initial 7680000 lane_a (omega arith)

plan_transmit_example : TxOutcome 30720000 (plan initial 30720000 1 off)
plan_transmit_example = plan_transmit initial 30720000 1 off (omega arith) refl
