-- ===== src/Lalib/Word/Tests.antt =====
-- Runs of the stream word.
use la9310_driver.Base.{◌+◌, ◌≡◌, refl, false}
use la9310_driver.Vspa.Registry.{initial}
use la9310_driver.Lalib.Plan.{Lanes, DcsPlan, plan, rx_ladder, rx_pass, rx_rung}
use la9310_driver.Lalib.Word.{stream_word, stream_is_native_rx}
use la9310_driver.Lalib.Word.RoundTrip.{IsRead, stream_word-IsRead}

abbrev two_lanes : Lanes
two_lanes = record { rx0 = 1; rx1 = 0; rx2 = 1; rx3 = 0 }

abbrev deep : DcsPlan
deep = record {
  dcs_freq = 122880000;
  rx_dcs = 1;
  rx_decimation = 8;
  tx_dcs = 0;
  tx_upsampling = 0;
  caps = 1;
}

word_deep : stream_word 0 two_lanes deep ≡ 2 + 8 + 512 + 4096
unfolding stream_word
word_deep = refl

not_native : stream_is_native_rx (stream_word 0 two_lanes deep) ≡ false
unfolding stream_word stream_is_native_rx
not_native = refl

stream_word-IsRead_example : IsRead 0 two_lanes deep (stream_word 0 two_lanes deep)
unfolding plan rx_ladder rx_pass rx_rung
stream_word-IsRead_example = stream_word-IsRead initial 240000 0 two_lanes deep refl
