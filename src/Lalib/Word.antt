-- ===== src/Lalib/Word.antt =====
-- The stream word (kernel_driver/la9310rfnm/rfnm_lalib.c): how `rfnm_la9310_stream` packs a plan
-- into the 32 bits that the modem gets, and how the driver reads them back. The fields do not
-- overlap, so that `|` is a sum; `x >> k & m` is a quotient and a remainder.
pub mod RoundTrip
mod Tests
use la9310_driver.Base.{
  ℕ, ◌+◌, ◌*◌, ◌/◌, ◌%◌, ◌^◌, Bool, true, false, not, ◌&&◌, ltb, ◌==◌, if◌then◌else◌,
}
use la9310_driver.Lalib.Plan.{Lanes, DcsPlan}

-- `(t >> k) & 0x1` and `(t >> k) & 0x3`
abbrev pub bit : ℕ → ℕ → ℕ
bit t k = t / 2 ^ k % 2

abbrev pub pair : ℕ → ℕ → ℕ
pair t k = t / 2 ^ k % 4

-- `(t >> 1) & 0xf`
abbrev pub rx_lanes : ℕ → ℕ
rx_lanes t = t / 2 % 16

-- The word that `rfnm_la9310_stream` builds.
unfoldable pub stream_word : ℕ → Lanes → DcsPlan → ℕ
stream_word tx rx p =
    tx % 2
    + rx.rx0 % 2 * 2 ^ 1
    + rx.rx1 % 2 * 2 ^ 2
    + rx.rx2 % 2 * 2 ^ 3
    + rx.rx3 % 2 * 2 ^ 4
    + p.rx_decimation % 4 * 2 ^ 5
    + p.tx_upsampling % 4 * 2 ^ 7
    + p.rx_dcs % 2 * 2 ^ 9
    + p.tx_dcs % 2 * 2 ^ 10
    + p.rx_decimation / 4 % 4 * 2 ^ 11
    + p.tx_upsampling / 4 % 4 * 2 ^ 13

-- What `rfnm_la9310_get_clock_state` reports.
pub record ClockState : Type 0 where
  pub rx_dcs_div : ℕ
  pub tx_dcs_div : ℕ
  pub rx_decim_log2 : ℕ
  pub tx_interp_log2 : ℕ

unfoldable pub get_clock_state : ℕ → ClockState
get_clock_state t = record {
  rx_dcs_div = bit t 9;
  tx_dcs_div = bit t 10;
  rx_decim_log2 = pair t 5 + 4 * pair t 11;
  tx_interp_log2 = pair t 7 + 4 * pair t 13;
}

-- The directions that `print_stream_params_from_t` reads: `tx` and `rx[0]` to `rx[3]`.
unfoldable pub word_tx : ℕ → ℕ
word_tx t = bit t 0

unfoldable pub word_rx : ℕ → Lanes
word_rx t = record { rx0 = bit t 1; rx1 = bit t 2; rx2 = bit t 3; rx3 = bit t 4 }

unfoldable pub stream_is_native_rx : ℕ → Bool
stream_is_native_rx t = not (rx_lanes t == 0) && (bit t 9 == 0) && (pair t 5 + 4 * pair t 11 == 0)

-- `t |= 1u << 16`, the mark of a windowed session.
abbrev pub windowed : ℕ → ℕ
windowed t = if bit t 16 == 0 then t + 2 ^ 16 else t
