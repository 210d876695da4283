-- ===== src/Rfnm/Consumer.antt =====
-- The consumer of transmit packets in kernel_driver/la9310rfnm/la9310_rfnm.c (in `rfnm_handler_out`):
-- the judgement of a packet's stamp, its place in the ring of the DAC, and the assembly of windows.
-- The ring is a function from slots to lists of samples. The meters of leads and lags are left out.
pub mod Lead
pub mod Place
pub mod Timed
pub mod Outcome
mod Tests
use la9310_driver.Base.{
  ℕ, ◌+◌, ◌-◌, ◌*◌, ◌/◌, ◌%◌, ◌^◌, Bool, true, false, ◌&&◌, List, Option, ltb, if◌then◌else◌, ℤ,
  pos, negsuc,
}

-- RFNM_DAC_BUFCNT, which is a power of two, LA_TX_BASE_BUFSIZE / 4 and RFNM_TX_USB_BUF_MULTI.
pub record Geometry : Type 0 where
  pub ring_log2 : ℕ
  pub elems_per_slot : ℕ
  pub buf_multi : ℕ

abbrev pub bufcnt : Geometry → ℕ
bufcnt g = 2 ^ g.ring_log2

-- struct rfnm_tx_usb_buf: the stamp, the counter, the size in base buffers, the flags TIME_VALID,
-- POS_VALID and EOB, and the samples of each base buffer, unpacked where the format is packed.
pub record Packet (A : Type 0) : Type 0 where
  pub phytimer : ℕ
  pub usb_cc : ℕ
  pub multi : ℕ
  pub time_valid : Bool
  pub pos_valid : Bool
  pub eob : Bool
  pub chunk : ℕ → List A

-- The variables `rfnm_tx_win`.
pub record Win : Type 0 where
  pub open_tick : ℕ
  pub first_slot : ℕ
  pub next_slot : ℕ
  pub slots : ℕ
  pub active : Bool

-- What the consumer reads of the outside: the status of the firmware, the clock, the parameter for
-- the lead, whether a windowed session runs, whether positional packets are refused, and the sink of
-- windows, if there is one.
pub record Env (W : Type 0) : Type 0 where
  pub tx_r_shift : ℕ
  pub tx_t0 : ℕ
  pub now64 : ℕ
  pub lead_margin_slots : ℕ
  pub windowed : Bool
  pub pos_refused : Bool
  pub window_cb : Option (ℕ → ℕ → ℕ → W → ℤ × W)

pub record Tx (A : Type 0) (W : Type 0) : Type 0 where
  pub ring : ℕ → List A
  pub win : Win
  pub usb_cc : ℕ
  pub head : ℕ
  pub pos_expect : ℕ
  pub pos_expect_valid : Bool
  pub last_late_usb_cc : ℕ
  pub timed_reject : ℕ
  pub pos_late : ℕ
  pub timed_placed : ℕ
  pub cc_gap : ℕ
  pub mode_reject : ℕ
  pub pos_misaligned : ℕ
  pub pos_placed : ℕ
  pub unstamped : ℕ
  pub wa_windows : ℕ
  pub wa_ragged : ℕ
  pub wa_implicit : ℕ
  pub wa_cbfail : ℕ
  pub local_tx_ok : ℕ
  pub world : W

abbrev pub next64 : ℕ → ℕ
next64 n = (n + 1) % 2 ^ 64

-- An `int64_t` from 64 bits, and the tests of one against a value that is not negative.
abbrev pub int64 : ℕ → ℤ
int64 n = if ltb n (2 ^ 63) then pos n else negsuc (2 ^ 64 - n - 1)

abbrev pub is_below : ℤ → ℕ → Bool
is_below (pos n) m = ltb n m
is_below (negsuc n) m = true

abbrev pub is_above : ℤ → ℕ → Bool
is_above (pos n) m = ltb m n
is_above (negsuc n) m = false

-- The stamp with the high word of the clock, moved to the nearest winding.
unfoldable pub stamp64 : ℕ → ℕ → ℕ
stamp64 now stamp =
    let s = now / 2 ^ 32 * 2 ^ 32 + stamp in
    if ltb now s && ltb (2 ^ 31) (s - now)
    then (s + 2 ^ 64 - 2 ^ 32) % 2 ^ 64
    else if ltb s now && ltb (2 ^ 31) (now - s)
    then (s + 2 ^ 32) % 2 ^ 64
    else s

unfoldable pub lead : ℕ → ℕ → ℤ
unfolding stamp64
lead now stamp = int64 ((stamp64 now stamp + 2 ^ 64 - now) % 2 ^ 64)

abbrev pub ticks_per_slot : ℕ → ℕ
ticks_per_slot shift = 128 * 2 ^ shift % 2 ^ 32

-- rfnm_tx_min_lead_ticks
unfoldable pub min_lead_ticks : ℕ → ℕ → ℕ
min_lead_ticks margin tps = (16 + margin) * tps % 2 ^ 32

pub data Verdict : Type 0 where
  late wild early good : Verdict

unfoldable pub judge : Geometry → ℕ → ℕ → ℤ → Verdict
judge g least tps l =
    if is_below l least
    then late
    else if is_above l (bufcnt g / 2 * tps)
    then (if is_above l (bufcnt g / 2 * tps + 61440000) then wild else early)
    else good
