-- ===== src/Agc.antt =====
-- The receive levelling (kernel_driver/la9310rfnm/rfnm_agc.c): how a slot of the ADC ring is
-- measured, how a gain step is chosen, and one poll of the loop. The module parameters are taken
-- to be 0 or more. The slot descriptors, the format constants and the jiffies are the kernel
-- headers', and the daughterboard layer that applies a gain is another component: they are
-- parameters. Messages are left out.
pub mod Poll
pub mod Window
pub mod Blanking
pub mod Attack
pub mod Peak
mod Tests
use Prim.Native.Nat.{bit_and}
use la9310_driver.Base.{
  ℕ, zero, suc, ◌+◌, ◌-◌, ◌*◌, ◌/◌, ◌%◌, ◌^◌, Bool, true, false, not, ◌&&◌, ◌||◌, Option, none,
  some, List, [], ◌∷◌, ltb, leb, ◌==◌, if◌then◌else◌, get_elem?, ℤ, pos, negsuc, is_zero, int_lt,
  int_eq,
}

-- AGC_ADC_SLOT_CNT, AGC_WRITER_GUARD, AGC_PAYLOAD_OFF and AGC_MAX_SLOT_SAMPLES
abbrev pub slot_cnt : ℕ
slot_cnt = 4096

abbrev pub writer_guard : ℕ
writer_guard = 4

abbrev pub payload_off : ℕ
payload_off = 256

abbrev pub max_slot_samples : ℕ
max_slot_samples = 960

-- z + n and z - n of an `int`.
abbrev pub plus : ℤ → ℕ → ℤ
plus (pos m) n = pos (m + n)
plus (negsuc m) n = if leb n m then negsuc (m - n) else pos (n - m - 1)

abbrev pub minus : ℤ → ℕ → ℤ
minus (pos m) n = if leb n m then pos (m - n) else negsuc (n - m - 1)
minus (negsuc m) n = negsuc (m + n)

-- The module parameters.
pub record Params : Type 0 where
  pub slots_per_wake : ℕ
  pub settle_ms : ℕ
  pub stream_settle_ms : ℕ
  pub att_counts : ℕ
  pub dec_counts : ℕ
  pub hold_ms : ℕ
  pub up_db : ℕ

-- The formats of the local stream.
pub data Format : Type 0 where
  packed12 cs16 other_format : Format

-- The fields of a receive channel that the loop reads.
pub record Channel : Type 0 where
  pub adc_id : ℕ
  pub freq : ℤ
  pub gain : ℤ
  pub gain_max : ℤ
  pub agc_default : Bool
  pub rf_on : Bool

-- The daughterboards: `none` is an absent board or a NULL channel.
abbrev pub Boards : Type 0
Boards = ℕ → Option (List (Option Channel))

-- The kernel's clock, the slot descriptors and the daughterboard layer.
pub record Layer : Type 0 where
  pub msecs_to_jiffies : ℕ → ℕ
  pub time_after : ℕ → ℕ → Bool
  pub sub_cnt : ℕ
  pub sub_size : (ℕ → ℕ) → ℕ → ℕ
  pub sub_id : (ℕ → ℕ) → ℕ → ℕ
  pub set_gain : ℕ → ℕ → ℤ → Boards → ℤ × Boards

-- struct agc_state, without its mappings and its thread.
pub record Agc : Type 0 where
  pub dgb_id : ℕ
  pub ch_id : ℕ
  pub last_slot : ℕ
  pub last_rx_buf_id : ℕ
  pub was_idle : Bool
  pub blank_until : ℕ
  pub last_freq : ℤ
  pub peak : ℕ
  pub below_since : ℕ
  pub below_valid : Bool
  pub stat_slots : ℕ
  pub stat_steps_down : ℕ
  pub stat_steps_up : ℕ
  pub stat_idle : ℕ

-- The loop's state, the boards and `rfnm_rx_gain_epoch`.
pub record Sys : Type 0 where
  pub st : Agc
  pub boards : Boards
  pub epoch : ℕ

-- What a poll sees.
pub record View : Type 0 where
  pub format : Format
  pub native_rx : Bool
  pub rx_buf_id : ℕ
  pub jiffies : ℕ
  -- The bytes of the ring, by slot.
  pub ring : ℕ → ℕ → ℕ

-- The first channel of a board that feeds ADC 0, from channel `q` on.
unfoldable pub find_channel : List (Option Channel) → ℕ → Option ℕ
find_channel [] q = none
find_channel (none ∷ cs) q = find_channel cs (q + 1)
find_channel (some c ∷ cs) q =
    let rest = find_channel cs (q + 1) in if c.adc_id == 0 then some q else rest

abbrev pub on_board : Option (List (Option Channel)) → Option ℕ
on_board none = none
on_board (some cs) = find_channel cs 0

-- agc_find_target
unfoldable pub find_target : Boards → Option (ℕ × ℕ)
find_target boards = elim (on_board (boards 0)) [
  | some q ↦ some (0, q)
  | none ↦ elim (on_board (boards 1)) [ some q ↦ some (1, q) | none ↦ none ]
]

-- |p >> 4| of the 16-bit value whose unsigned reading is `u`.
abbrev pub magnitude16 : ℕ → ℕ
magnitude16 u = if ltb u 32768 then u / 16 else (65536 - u + 15) / 16

-- |v| of the 12-bit value whose unsigned reading is `u`.
abbrev pub magnitude12 : ℕ → ℕ
magnitude12 u = if ltb u 2048 then u else 4096 - u

abbrev pub raise : ℕ → ℕ → ℕ
raise peak v = if ltb peak v then v else peak

-- The samples of a slot: `none` where a descriptor is refused.
unfoldable pub count_samples : Layer → (ℕ → ℕ) → ℕ → ℕ → ℕ → Option ℕ
count_samples layer slot zero s nsamp = some nsamp
count_samples layer slot (suc n) s nsamp =
    let size = layer.sub_size slot s in
    let rest = count_samples layer slot n (s + 1) (nsamp + size) in
    if size == 0
    then some nsamp
    else if not (layer.sub_id slot s == 0) || ltb 256 size || not (size % 64 == 0)
    then none
    else rest

-- The peak over `n` complex samples of 16-bit values, from byte `at` on.
unfoldable pub peak_cs16 : (ℕ → ℕ) → ℕ → ℕ → ℕ → ℕ
peak_cs16 slot zero at peak = peak
peak_cs16 slot (suc n) at peak = peak_cs16 slot n (at + 4) (
    raise (raise peak (magnitude16 (slot at + 256 * slot (at + 1))))
      (magnitude16 (slot (at + 2) + 256 * slot (at + 3))))

-- The peak over `n` groups of three bytes, from byte `at` on.
unfoldable pub peak_packed : (ℕ → ℕ) → ℕ → ℕ → ℕ → ℕ
peak_packed slot zero at peak = peak
peak_packed slot (suc n) at peak =
    let lp = slot at + 256 * slot (at + 1) + 65536 * slot (at + 2) in
    peak_packed slot n (at + 3)
      (raise (raise peak (magnitude12 (lp / 4096 % 4096))) (magnitude12 (lp % 4096)))

abbrev pub is_cs16 : Format → Bool
is_cs16 cs16 = true
is_cs16 packed12 = false
is_cs16 other_format = false

abbrev pub is_packed12 : Format → Bool
is_packed12 packed12 = true
is_packed12 cs16 = false
is_packed12 other_format = false

-- agc_slot_stats once the samples are counted.
unfoldable pub measure : Format → (ℕ → ℕ) → Option ℕ → Agc → ℕ × Agc
measure format slot none st = (0, st)
measure format slot (some nsamp) st =
    if nsamp == 0 || ltb max_slot_samples nsamp then (0, st) else (
      1,
      record st {
        peak =
            if is_cs16 format
            then peak_cs16 slot nsamp payload_off st.peak
            else peak_packed slot (nsamp / 2) payload_off st.peak;
        stat_slots = (st.stat_slots + 1) % 2 ^ 32;
      },
    )

unfoldable pub slot_stats : Layer → Format → (ℕ → ℕ) → Agc → ℕ × Agc
slot_stats layer format slot st =
    measure format slot (count_samples layer slot layer.sub_cnt 0 0) st

-- The loop `while(o > 1)`, on fuel.
unfoldable pub overshoot : ℕ → ℕ → ℕ → ℕ
overshoot zero o down = down
overshoot (suc fuel) o down =
    let rest = overshoot fuel (o / 2) (down + 6) in if ltb 1 o then rest else down

-- The size of an attack step: the fuel is enough, since below 2040 the quotient takes 11 bits.
unfoldable pub attack_down : ℕ → ℕ → ℕ
attack_down att peak =
    if leb 2040 peak then 12 else overshoot 11 (peak / (if att == 0 then 1 else att)) 6

module _ (params : Params) (layer : Layer) (now : ℕ) where
  -- `jiffies + msecs_to_jiffies(ms)`
  abbrev pub deadline : ℕ → ℕ
  deadline ms = (now + layer.msecs_to_jiffies ms) % 2 ^ 64

  -- What follows a call of rfnm_dgb_rx_set_gain.
  unfoldable pub stepped : (Agc → Agc) → Agc → ℕ → ℤ × Boards → Sys
  stepped count st epoch (rc, boards) =
      if is_zero rc
      then (record {
        st = record (count st) { blank_until = deadline params.settle_ms };
        boards = boards;
        epoch = (epoch + 1) % 2 ^ 32;
      })
      else (record { st = st; boards = boards; epoch = epoch })

  abbrev pub count_down : Agc → Agc
  count_down st = record st { stat_steps_down = (st.stat_steps_down + 1) % 2 ^ 32 }

  abbrev pub count_up : Agc → Agc
  count_up st = record st { stat_steps_up = (st.stat_steps_up + 1) % 2 ^ 32 }

  abbrev pub forget_below : Sys → Sys
  forget_below s = record s { st = record (s.st) { below_valid = false } }

  -- The branch of a peak that is too low.
  unfoldable pub decay : Channel → Sys → Sys
  decay ch s =
      let st = s.st in
      if not st.below_valid
      then record s { st = record st { below_valid = true; below_since = now } }
      else if layer.time_after now
          ((st.below_since + layer.msecs_to_jiffies params.hold_ms) % 2 ^ 64)
      then forget_below (
          if int_lt ch.gain ch.gain_max
          then stepped count_up st s.epoch
              (layer.set_gain st.dgb_id st.ch_id (plus ch.gain params.up_db) s.boards)
          else s)
      else s

  -- agc_level_step
  unfoldable pub level_step : Channel → Sys → Sys
  level_step ch s =
      let st = s.st in
      if leb params.att_counts st.peak
      then forget_below (
          stepped count_down st s.epoch (
            layer.set_gain st.dgb_id st.ch_id
              (minus ch.gain (attack_down params.att_counts st.peak)) s.boards))
      else if not (st.peak == 0) && ltb st.peak params.dec_counts
      then decay ch s
      else forget_below s
