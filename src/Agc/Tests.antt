-- ===== src/Agc/Tests.antt =====
-- The properties of the receive levelling at concrete values.
use la9310_driver.Base.{
  ℕ, ◌+◌, ◌-◌, ◌%◌, ◌==◌, ◌≡◌, ◌≢◌, if◌then◌else◌, some, [], ◌∷◌, pos, true, false, arith,
}
use la9310_driver.Agc.{Params, Layer, packed12, Channel, Sys, View}
use la9310_driver.Agc.Poll.{poll}
use la9310_driver.Agc.Window.{poll-same, with_ring}

abbrev settings : Params
settings = record {
  slots_per_wake = 16;
  settle_ms = 50;
  stream_settle_ms = 100;
  att_counts = 1800;
  dec_counts = 400;
  hold_ms = 200;
  up_db = 3;
}

-- One descriptor of 64 bytes in each slot.
abbrev one_sub : Layer
one_sub = record {
  msecs_to_jiffies = λ ms. ms;
  time_after = λ a b. false;
  sub_cnt = 1;
  sub_size = λ slot k. 64;
  sub_id = λ slot k. 0;
  set_gain = λ i q gain boards. (pos 0, boards);
}

abbrev loud : ℕ → ℕ
loud byte = 127

abbrev quiet : ℕ → ℕ
quiet byte = 0

-- The writer is at the slot 200 of a loud ring.
abbrev view : View
view = record {
  format = packed12;
  native_rx = true;
  rx_buf_id = 200;
  jiffies = 1000;
  ring = λ i. loud;
}

-- The same ring, but for the slot of the writer.
abbrev rewritten : ℕ → ℕ → ℕ
rewritten i = if i == 200 then quiet else loud

abbrev channel : Channel
channel = record {
  adc_id = 0;
  freq = pos 100;
  gain = pos 30;
  gain_max = pos 60;
  agc_default = true;
  rf_on = true;
}

abbrev sys : Sys
sys = record {
  st = record {
    dgb_id = 0;
    ch_id = 0;
    last_slot = 100;
    last_rx_buf_id = 100;
    was_idle = false;
    blank_until = 0;
    last_freq = pos 100;
    peak = 0;
    below_since = 0;
    below_valid = false;
    stat_slots = 0;
    stat_steps_down = 0;
    stat_steps_up = 0;
    stat_idle = 0;
  };
  boards = λ i. some (some channel ∷ []);
  epoch = 0;
}

poll-same_example :
    poll settings one_sub (with_ring rewritten view) sys ≡ poll settings one_sub view sys
poll-same_example =
    poll-same settings one_sub view rewritten sys (omega arith) (omega arith)
      λ i _ off. elsewhere i (off 0 (omega arith))
  where
    elsewhere : (i : ℕ) → i ≢ (200 + 4096 - 0) % 4096 → rewritten i ≡ loud
    elsewhere i h = ground arith
