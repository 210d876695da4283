-- ===== src/Board/Tests.antt =====
-- Runs of the daughterboard layer at concrete values.
use la9310_driver.Base.{◌||◌, ℕ, refl, true, false, [], ◌∷◌, none, some, ◌==◌, ℤ, pos, neg, arith}
use la9310_driver.Base.Fault.{Safe}
use la9310_driver.Vspa.Registry.{initial}
use la9310_driver.Board.{
  Codes, RxCh, Chain, rej_none, validate_rx_ch, dgb_rx_set, rx_flagged, flag_of, put_flag,
}
use la9310_driver.Board.Apply.{
  Platform, Timing, ChList, Bank, mark, apply_ch, apply_chs, apply_board, apply_boards, finish,
  apply_work, rx_dir,
}
use la9310_driver.Board.Outcome.{Applied, apply_boards_lem}
use la9310_driver.Board.Bounds.{apply_work-Safe}
use la9310_driver.Board.Rate.{RateState, IsAnswered, set_samp_rate_user, set_samp_rate_user_lem}

abbrev codes : Codes
codes = record {
  rf_off = pos 0;
  rf_on_tdd = pos 2;
  stream_auto = pos 0;
  stream_off = pos 1;
  stream_on = pos 2;
  bias_tee_off = pos 0;
  bias_tee_on = pos 1;
  agc_off = pos 0;
  agc_default = pos 1;
  fm_notch_auto = pos 0;
  fm_notch_off = pos 2;
  not_supported = pos 3;
  probe_fail = pos 1;
  timeout = pos 4;
}

abbrev channel : RxCh
channel = record {
  abs_id = 0;
  adc_id = 0;
  enable = pos 0;
  stream = pos 0;
  agc = pos 0;
  bias_tee = pos 0;
  fm_notch = pos 0;
  freq = pos 100;
  freq_min = pos 10;
  freq_max = pos 3500;
  rfic_lpf_bw = pos 20;
  gain = pos 10;
  gain_min = neg 24;
  gain_max = pos 30;
  rfic_dc_i = pos 0;
  rfic_dc_q = pos 0;
}

abbrev tuned : RxCh
tuned = record channel { enable = pos 1; freq = pos 900 }

-- The client asks for the channels 0 and 5.
abbrev request : ChList RxCh
request = record { ch = λ d. tuned; apply = λ i. (i == 0) || (i == 5); list_cc = 7 }

abbrev obeys : ℕ → RxCh → ℕ → ℤ × ℕ
obeys slot ch w = (pos 0, w)

abbrev platform : Platform ℕ
platform = record {
  wait_restart_sm_idle = λ w. (pos 0, w);
  la9310_stream = λ rate dac adcs w. (pos 0, w);
  stream_send_cnt = λ w. 0;
  dcs_reclock_cnt = λ w. 0;
  wire_epochs = λ w. (0, 0);
}

abbrev one_board : Bank RxCh
one_board = record {
  dgb0 = some (channel ∷ []);
  dgb1 = none;
  report = record { ecodes = []; rej = []; cc = 0 };
}

abbrev idle : Chain ℕ
idle = record { rx_adc_s = false ∷ false ∷ false ∷ false ∷ []; tx_dac_s = false; world = 0 }

abbrev timing : Timing
timing = record { rx_break = false; tx_break = false; reclock = false; rx_epoch = 0; tx_epoch = 0 }

applied : Safe (apply_boards (rx_dir codes obeys) request codes platform 0 one_board idle timing)
unfolding apply_boards apply_board apply_chs apply_ch rx_dir dgb_rx_set rx_flagged flag_of put_flag
    validate_rx_ch finish mark
applied = (_, refl)

apply_boards_lem_example :
    Applied (rx_dir codes obeys) request codes platform 0 one_board idle applied.0
unfolding rx_dir
apply_boards_lem_example =
    apply_boards_lem (rx_dir codes obeys) request codes platform 0 one_board idle timing applied.0
      (refl, tt) tt (omega arith) applied.1

apply_work-Safe_example :
    Safe (apply_work (rx_dir codes obeys) request codes platform 0 one_board idle timing)
unfolding rx_dir
apply_work-Safe_example =
    apply_work-Safe codes obeys request platform 0 one_board idle timing (λ d. omega arith)
      (refl, tt) tt (omega arith) refl

abbrev unset : RateState
unset = record {
  user_samp_rate_hz = 122880000;
  cc_samp_rate = 0;
  samp_rate_ecode = pos 0;
  samp_rate_rej = rej_none;
}

set_samp_rate_user_lem_example :
    IsAnswered codes
      (λ f. true)
      initial
      true
      true
      61440000
      3
      unset
      (set_samp_rate_user codes (λ f. true) initial true true 61440000 3 unset)
set_samp_rate_user_lem_example =
    set_samp_rate_user_lem codes (λ f. true) initial true true 61440000 3 unset (λ e. cc e)
      (λ e. cc e)
