-- ===== src/Lalib/Word/RoundTrip.antt =====
-- The stream word gives back what was packed into it (`rfnm_la9310_stream`,
-- `rfnm_la9310_get_clock_state` and `rfnm_stream_is_native_rx` of
-- kernel_driver/la9310rfnm/rfnm_lalib.c).
use la9310_driver.Base.{ℕ, ◌+◌, ◌*◌, ◌%◌, ◌^◌, ◌<◌, ◌≡◌, arith}
use la9310_driver.Vspa.Registry.{Registry}
use la9310_driver.Lalib.Plan.{Lanes, DcsPlan, planned, plan}
use la9310_driver.Lalib.Plan.Window.{InWindow, plan-InWindow}
use la9310_driver.Lalib.Word.{stream_word, get_clock_state, ClockState, word_tx, word_rx, bit, pair}

-- The knobs of a plan, and the low bits of the enables.
abbrev pub plan_state : DcsPlan → ClockState
plan_state p = record {
  rx_dcs_div = p.rx_dcs;
  tx_dcs_div = p.tx_dcs;
  rx_decim_log2 = p.rx_decimation;
  tx_interp_log2 = p.tx_upsampling;
}

abbrev pub low_bits : Lanes → Lanes
low_bits rx = record { rx0 = rx.rx0 % 2; rx1 = rx.rx1 % 2; rx2 = rx.rx2 % 2; rx3 = rx.rx3 % 2 }

rx_fields :
    (tx : ℕ) (rx : Lanes) (p : DcsPlan)
    → (bit (stream_word tx rx p) 9 ≡ p.rx_dcs % 2)
      × (pair (stream_word tx rx p) 5 + 4 * pair (stream_word tx rx p) 11 ≡ p.rx_decimation % 16)
unfolding stream_word
rx_fields tx rx p = (omega arith, omega arith)

tx_fields :
    (tx : ℕ) (rx : Lanes) (p : DcsPlan)
    → (bit (stream_word tx rx p) 10 ≡ p.tx_dcs % 2)
      × (pair (stream_word tx rx p) 7 + 4 * pair (stream_word tx rx p) 13 ≡ p.tx_upsampling % 16)
unfolding stream_word
tx_fields tx rx p = (omega arith, omega arith)

lane_fields :
    (tx : ℕ) (rx : Lanes) (p : DcsPlan)
    → (bit (stream_word tx rx p) 0 ≡ tx % 2)
      × (bit (stream_word tx rx p) 1 ≡ rx.rx0 % 2)
      × (bit (stream_word tx rx p) 2 ≡ rx.rx1 % 2)
      × (bit (stream_word tx rx p) 3 ≡ rx.rx2 % 2)
      × (bit (stream_word tx rx p) 4 ≡ rx.rx3 % 2)
unfolding stream_word
lane_fields tx rx p = (omega arith, omega arith, omega arith, omega arith, omega arith)

pub record IsRead (tx : ℕ) (rx : Lanes) (p : DcsPlan) (t : ℕ) : Type 0 where
  pub bound : t < 2 ^ 15
  pub state : get_clock_state t ≡ plan_state p
  pub transmit : word_tx t ≡ tx % 2
  pub receive : word_rx t ≡ low_bits rx

bounded : (tx : ℕ) (rx : Lanes) (p : DcsPlan) → stream_word tx rx p < 2 ^ 15
unfolding stream_word
bounded tx rx p = omega arith

word-IsRead :
    (tx : ℕ) (rx : Lanes) (p : DcsPlan) → InWindow p → IsRead tx rx p (stream_word tx rx p)
unfolding get_clock_state word_tx word_rx
word-IsRead tx rx p w =
    let (a, b) = rx_fields tx rx p in
    let (c, d) = tx_fields tx rx p in
    let (e, f, g, h, i) = lane_fields tx rx p in
    let a2 : bit (stream_word tx rx p) 9 ≡ p.rx_dcs = omega (arith, w.rx_div) in
    let b2 : pair (stream_word tx rx p) 5 + 4 * pair (stream_word tx rx p) 11 ≡ p.rx_decimation =
      omega (arith, w.rx_stages) in
    let c2 : bit (stream_word tx rx p) 10 ≡ p.tx_dcs = omega (arith, w.tx_div) in
    let d2 : pair (stream_word tx rx p) 7 + 4 * pair (stream_word tx rx p) 13 ≡ p.tx_upsampling =
      omega (arith, w.tx_stages) in
    record {
      bound = bounded tx rx p;
      state = λ j. record {
        rx_dcs_div = a2 j;
        tx_dcs_div = c2 j;
        rx_decim_log2 = b2 j;
        tx_interp_log2 = d2 j;
      };
      transmit = e;
      receive = λ j. record { rx0 = f j; rx1 = g j; rx2 = h j; rx3 = i j };
    }

-- Whatever the planner plans, the stream word holds: it is below 2^15, and reading it back gives
-- the dividers and the stages of the plan and the low bit of each enable.
pub stream_word-IsRead :
    (reg : Registry) (rate tx : ℕ) (rx : Lanes) (p : DcsPlan)
    → plan reg rate tx rx ≡ planned p
    → IsRead tx rx p (stream_word tx rx p)
stream_word-IsRead reg rate tx rx p h = word-IsRead tx rx p (plan-InWindow reg rate tx rx p h)
