-- ===== src/Board.antt =====
-- The daughterboard layer (kernel_driver/la9310rfnm/rfnm_daughterboard.c): the settings of a channel
-- and their validation, and the flags of the streams. The values of the enumerations and of the API's
-- codes are the kernel headers', and the drivers of the boards are another component: they are
-- parameters. A driver's call does not write to the channel.
pub mod Apply
pub mod Walk
pub mod Outcome
pub mod Bounds
pub mod Rate
mod Tests
use la9310_driver.Base.{
  ℕ, ◌+◌, ◌-◌, Bool, true, false, not, ◌&&◌, ◌||◌, List, Option, none, some, if◌then◌else◌, ltb, ℤ,
  pos, neg, is_neg, is_zero, int_lt, int_eq, length, set, get_elem?, get_or,
}

-- Why a setting was refused.
pub data Rej : Type 0 where
  rej_none rej_freq rej_lpf_bw rej_power rej_gain rej_dc_trim rej_enable rej_stream rej_agc : Rej
  rej_bias_tee rej_fm_notch rej_path rej_rate rej_ch_missing rej_device rej_boot : Rej

-- The enumerations, and RFNM_API_NOT_SUPPORTED, RFNM_API_PROBE_FAIL and RFNM_API_TIMEOUT.
-- RFNM_API_OK is 0.
pub record Codes : Type 0 where
  pub rf_off : ℤ
  pub rf_on_tdd : ℤ
  pub stream_auto : ℤ
  pub stream_off : ℤ
  pub stream_on : ℤ
  pub bias_tee_off : ℤ
  pub bias_tee_on : ℤ
  pub agc_off : ℤ
  pub agc_default : ℤ
  pub fm_notch_auto : ℤ
  pub fm_notch_off : ℤ
  pub not_supported : ℤ
  pub probe_fail : ℤ
  pub timeout : ℤ

-- The fields of struct rfnm_api_rx_ch and struct rfnm_api_tx_ch that this layer uses.
pub record RxCh : Type 0 where
  pub abs_id : ℕ
  pub adc_id : ℕ
  pub enable : ℤ
  pub stream : ℤ
  pub agc : ℤ
  pub bias_tee : ℤ
  pub fm_notch : ℤ
  pub freq : ℤ
  pub freq_min : ℤ
  pub freq_max : ℤ
  pub rfic_lpf_bw : ℤ
  pub gain : ℤ
  pub gain_min : ℤ
  pub gain_max : ℤ
  pub rfic_dc_i : ℤ
  pub rfic_dc_q : ℤ

pub record TxCh : Type 0 where
  pub abs_id : ℕ
  pub enable : ℤ
  pub stream : ℤ
  pub bias_tee : ℤ
  pub freq : ℤ
  pub freq_min : ℤ
  pub freq_max : ℤ
  pub rfic_lpf_bw : ℤ
  pub power : ℤ
  pub power_min : ℤ
  pub power_max : ℤ

-- `rfnm_rx_adc_s` and `rfnm_tx_dac_s`, with what the drivers hold.
pub record Chain (W : Type 0) : Type 0 where
  pub rx_adc_s : List Bool
  pub tx_dac_s : Bool
  pub world : W

-- `x >= lo && x <= hi`
abbrev pub between : ℤ → ℤ → ℤ → Bool
between lo hi x = not (int_lt x lo) && not (int_lt hi x)

abbrev pub enodev : ℤ
enodev = neg 19

abbrev pub einval : ℤ
einval = neg 22

module _ (c : Codes) where
  abbrev pub enable_valid : ℤ → Bool
  enable_valid x = between c.rf_off c.rf_on_tdd x

  abbrev pub stream_valid : ℤ → Bool
  stream_valid x = between c.stream_auto c.stream_on x

  abbrev pub bias_tee_valid : ℤ → Bool
  bias_tee_valid x = between c.bias_tee_off c.bias_tee_on x

  abbrev pub agc_valid : ℤ → Bool
  agc_valid x = between c.agc_off c.agc_default x

  abbrev pub fm_notch_valid : ℤ → Bool
  fm_notch_valid x = between c.fm_notch_auto c.fm_notch_off x

  abbrev pub dc_valid : ℤ → Bool
  dc_valid x = between (neg 126) (pos 126) x

  abbrev pub refuse : Rej → ℤ × Rej
  refuse r = (c.not_supported, r)

  -- rfnm_validate_tx_ch
  unfoldable pub validate_tx_ch : TxCh → ℤ × Rej
  validate_tx_ch ch =
      if not (between ch.freq_min ch.freq_max ch.freq)
      then refuse rej_freq
      else if is_neg ch.rfic_lpf_bw
      then refuse rej_lpf_bw
      else if not (between ch.power_min ch.power_max ch.power)
      then refuse rej_power
      else if not (enable_valid ch.enable)
      then refuse rej_enable
      else if not (stream_valid ch.stream)
      then refuse rej_stream
      else if not (bias_tee_valid ch.bias_tee)
      then refuse rej_bias_tee
      else (pos 0, rej_none)

  -- rfnm_validate_rx_ch
  unfoldable pub validate_rx_ch : RxCh → ℤ × Rej
  validate_rx_ch ch =
      if not (between ch.freq_min ch.freq_max ch.freq)
      then refuse rej_freq
      else if is_neg ch.rfic_lpf_bw
      then refuse rej_lpf_bw
      else if not (between ch.gain_min ch.gain_max ch.gain)
      then refuse rej_gain
      else if not (dc_valid ch.rfic_dc_q) || not (dc_valid ch.rfic_dc_i)
      then refuse rej_dc_trim
      else if not (enable_valid ch.enable)
      then refuse rej_enable
      else if not (stream_valid ch.stream)
      then refuse rej_stream
      else if not (agc_valid ch.agc)
      then refuse rej_agc
      else if not (bias_tee_valid ch.bias_tee)
      then refuse rej_bias_tee
      else if not (fm_notch_valid ch.fm_notch)
      then refuse rej_fm_notch
      else (pos 0, rej_none)

  -- What a stream's flag becomes, if anything.
  unfoldable pub flag_of : ℤ → ℤ → Option Bool
  flag_of stream enable =
      if int_eq stream c.stream_auto
      then some (not (int_eq enable c.rf_off))
      else if int_eq stream c.stream_on
      then some true
      else if int_eq stream c.stream_off
      then some false
      else none

  -- An assignment to an entry of `rfnm_rx_adc_s`. A write outside gives `none`.
  unfoldable pub put_flag : List Bool → ℕ → Option Bool → Option (List Bool)
  put_flag flags i none = some flags
  put_flag flags i (some b) = if ltb i (length flags) then some (set flags i b) else none

  -- The flags after a driver's call.
  unfoldable pub rx_flagged : ℤ → RxCh → List Bool → Option (List Bool)
  unfolding flag_of put_flag
  rx_flagged r ch flags =
      if is_zero r then put_flag flags ch.adc_id (flag_of ch.stream ch.enable) else some flags

  abbrev pub or_else : Option Bool → Bool → Bool
  or_else none b = b
  or_else (some a) b = a

  module _ {W : Type 0} where
    abbrev pub with_flags : ℤ → Bool → W → Option (List Bool) → Option (ℤ × Chain W)
    with_flags r dac w none = none
    with_flags r dac w (some flags) =
        some (r, record { rx_adc_s = flags; tx_dac_s = dac; world = w })

    -- rfnm_dgb_rx_set, for the driver's `rx_ch_set`.
    unfoldable pub dgb_rx_set : (RxCh → W → ℤ × W) → RxCh → Chain W → Option (ℤ × Chain W)
    unfolding rx_flagged
    dgb_rx_set ch_fun ch x =
        let (r, w) = ch_fun ch x.world in with_flags r x.tx_dac_s w (rx_flagged r ch x.rx_adc_s)

    -- rfnm_dgb_tx_set
    unfoldable pub dgb_tx_set : (TxCh → W → ℤ × W) → TxCh → Chain W → Option (ℤ × Chain W)
    unfolding flag_of
    dgb_tx_set ch_fun ch x =
        let (r, w) = ch_fun ch x.world in
        some (
          r,
          record x {
            tx_dac_s =
                if is_zero r then or_else (flag_of ch.stream ch.enable) x.tx_dac_s else x.tx_dac_s;
            world = w;
          },
        )
