-- ===== src/Rfnm/Consumer/Tests.antt =====
-- Runs of the consumer at concrete values.
use la9310_driver.Base.{
  ℕ, ◌+◌, ◌-◌, ◌*◌, ◌%◌, ◌^◌, ◌≡◌, ◌≢◌, ◌⊎◌, ◌<◌, refl, true, false, [], ◌∷◌, none, negsuc, arith,
}
use la9310_driver.Rfnm.Consumer.{Geometry, Packet, Env, Tx, lead, stamp64, early}
use la9310_driver.Rfnm.Consumer.Place.{lb_multi, samples, place_timed, verdict, consume}
use la9310_driver.Rfnm.Consumer.Outcome.{
  on_air, IsInTime, IsPlaced, tally, place_timed_lem, consume-Safe, consume-tally,
}

-- Slots of two samples.
abbrev geometry : Geometry
geometry = record { ring_log2 = 11; elems_per_slot = 2; buf_multi = 4 }

-- The clock is past its first winding.
abbrev env : Env Unit
env = record {
  tx_r_shift = 0;
  tx_t0 = 1000;
  now64 = 2 ^ 32 + 1000;
  lead_margin_slots = 48;
  windowed = false;
  pos_refused = false;
  window_cb = none;
}

abbrev in_window : Env Unit
in_window = record env { windowed = true }

-- A packet of one base buffer, whose stamp is half a slot after the slot 100.
abbrev packet : Packet ℕ
packet = record {
  phytimer = 1000 + 128 * 100 + 64;
  usb_cc = 5;
  multi = 1;
  time_valid = true;
  pos_valid = false;
  eob = false;
  chunk = λ i. 7 ∷ 8 ∷ [];
}

abbrev idle : Tx ℕ Unit
idle = record {
  ring = λ i. 9 ∷ 9 ∷ [];
  win = record { open_tick = 0; first_slot = 0; next_slot = 0; slots = 0; active = false };
  usb_cc = 5;
  head = 0;
  pos_expect = 0;
  pos_expect_valid = false;
  last_late_usb_cc = 0;
  timed_reject = 0;
  pos_late = 0;
  timed_placed = 0;
  cc_gap = 0;
  mode_reject = 0;
  pos_misaligned = 0;
  pos_placed = 0;
  unstamped = 0;
  wa_windows = 0;
  wa_ragged = 0;
  wa_implicit = 0;
  wa_cbfail = 0;
  local_tx_ok = 0;
  world = tt;
}

-- A window stands whose next slot is the second of the packet.
abbrev assembling : Tx ℕ Unit
assembling = record idle {
  win = record { open_tick = 0; first_slot = 99; next_slot = 101; slots = 2; active = true };
}

lead_of_old_stamp : lead (2 ^ 32 + 1000) (2 ^ 32 - 1) ≡ negsuc 1000
unfolding lead stamp64
lead_of_old_stamp = refl

place_timed_lem_example :
    (on_air 0 geometry env packet (place_timed 0 geometry env packet idle) ≡ 0 ∷ 7 ∷ 8 ∷ 0 ∷ [])
    × ((i : ℕ)
        → ((j : ℕ) → j < 2 → i ≢ (100 + j) % 2 ^ 11)
        → (place_timed 0 geometry env packet idle).ring i ≡ 9 ∷ 9 ∷ [])
unfolding lb_multi samples
place_timed_lem_example =
    place_timed_lem 0 geometry env packet idle refl (omega arith) (omega arith) (omega arith)
      (omega arith) (λ i. refl)

consume-Safe_example :
    ((consume 0 geometry env packet idle).1.ring ≡ idle.ring)
    ⊎ (IsInTime 0 geometry env packet × IsPlaced 0 geometry env packet)
consume-Safe_example =
    consume-Safe 0 geometry env packet idle (omega arith) (omega arith) (omega arith)

consume-tally_example :
    (((consume 0 geometry env packet idle).0 ≡ true)
      × (tally 0 geometry env (consume 0 geometry env packet idle).1 % 2 ^ 32 ≡ 1))
    ⊎ ((consume 0 geometry env packet idle ≡ (false, idle))
        × (verdict 0 geometry env packet ≡ early))
consume-tally_example = consume-tally 0 geometry env packet idle
