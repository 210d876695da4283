-- ===== src/Agc/Poll.antt =====
-- One poll of the receive levelling (`agc_poll` of kernel_driver/la9310rfnm/rfnm_agc.c).
use la9310_driver.Base.{
  ℕ, zero, suc, ◌+◌, ◌-◌, ◌%◌, ◌^◌, true, false, not, ◌&&◌, ◌||◌, Option, none, some, List, ltb,
  leb, ◌==◌, if◌then◌else◌, get_elem?,
}
use la9310_driver.Agc.{
  Agc, Sys, View, Params, Layer, Channel, slot_cnt, writer_guard, int_eq, is_packed12, find_target,
  slot_stats, level_step, forget_below, deadline,
}

-- The newest slot that a poll reads.
abbrev pub target_slot : ℕ → ℕ
target_slot cur = (cur + slot_cnt - writer_guard) % slot_cnt

-- The slot before the first that a poll reads, and how many it reads.
unfoldable pub window : ℕ → ℕ → ℕ → ℕ × ℕ
window slots_per_wake cur last =
    let target = target_slot cur in
    let avail = (target + slot_cnt + 2 ^ 32 - last) % 2 ^ 32 % slot_cnt in
    if ltb slots_per_wake avail
    then ((target + slot_cnt - slots_per_wake) % slot_cnt, slots_per_wake)
    else (last, avail)

-- The k-th slot after `from`.
abbrev pub slot_at : ℕ → ℕ → ℕ
slot_at from k = (from + 1 + k) % slot_cnt

-- The loop over the slots, from the k-th on, `n` left.
unfoldable pub read_slots : Layer → View → ℕ → ℕ → ℕ → Agc → Agc
read_slots layer v from zero k st = st
read_slots layer v from (suc n) k st =
    read_slots layer v from n (k + 1) (slot_stats layer v.format (v.ring (slot_at from k)) st).1

-- dgb_dt->rx_ch[ch_id]
abbrev pub channel_of : Option (List (Option Channel)) → ℕ → Option Channel
channel_of none q = none
channel_of (some cs) q = elim (get_elem? cs q) [ none ↦ none | some c ↦ c ]

module _ (params : Params) (layer : Layer) (v : View) where
  -- After the measurement.
  unfoldable pub act : Channel → Sys → Sys
  act ch s =
      if s.st.peak == 0
      then s
      else if ch.agc_default && ch.rf_on
      then level_step params layer v.jiffies ch s
      else forget_below params layer v.jiffies s

  unfoldable pub measure_window : Channel → Sys → Sys
  measure_window ch s =
      let st = s.st in
      let (from, avail) = window params.slots_per_wake v.rx_buf_id st.last_slot in
      let st' = read_slots layer v from avail 0 (record st { peak = 0; last_slot = from }) in
      act ch (record s { st = record st' { last_slot = target_slot v.rx_buf_id } })

  -- The loop is blanked until `ms` from now.
  abbrev pub blank : ℕ → Agc → Agc
  blank ms st = record st { blank_until = deadline params layer v.jiffies ms; below_valid = false }

  -- From `st->last_rx_buf_id = cur` on.
  unfoldable pub running : Channel → Sys → Sys
  running ch s =
      let cur = v.rx_buf_id in
      let st₁ : Agc = record (s.st) { last_rx_buf_id = cur } in
      let st₂ : Agc =
        if st₁.was_idle
        then blank params.stream_settle_ms (record st₁ { was_idle = false })
        else st₁ in
      if layer.time_after st₂.blank_until v.jiffies
      then record s { st = record st₂ { last_slot = target_slot cur } }
      else measure_window ch (record s { st = st₂ })

  -- From the retune guard on.
  unfoldable pub on_channel : Channel → Sys → Sys
  on_channel ch s =
      let cur = v.rx_buf_id in
      let st : Agc =
        if int_eq ch.freq s.st.last_freq
        then s.st
        else blank params.stream_settle_ms (record (s.st) { last_freq = ch.freq }) in
      if leb slot_cnt cur
      then record s { st = record st { was_idle = true } }
      else if cur == st.last_rx_buf_id
      then record s { st = record st { stat_idle = (st.stat_idle + 1) % 2 ^ 32; was_idle = true } }
      else running ch (record s { st = st })

  -- With the target that was found; a target is always a channel.
  unfoldable pub on_target : Option (ℕ × ℕ) → Sys → Sys
  on_target none s = s
  on_target (some (i, q)) s =
      let s' : Sys = record s { st = record (s.st) { dgb_id = i; ch_id = q } } in
      elim (channel_of (s.boards i) q) [ none ↦ s' | some ch ↦ on_channel ch s' ]

  -- agc_poll
  unfoldable pub poll : Sys → Sys
  poll s =
      if not (is_packed12 v.format) || not v.native_rx
      then s
      else on_target (find_target s.boards) s
