-- ===== src/Rfnm/Pool/Tests.antt =====
-- Runs of the pools at concrete values.
use mathlib.Core.List.{Pairwise}
use la9310_driver.Base.{ℕ, ◌≡◌, refl, true, List, [], ◌∷◌, none, replicate, arith}
use la9310_driver.Rfnm.Pool.{
  Ele, Format, Limits, Pools, enospc, no_addr, cull_stale, reset_stream_io,
}
use la9310_driver.Rfnm.Pool.Calls.{
  get_rx, acq_tx, sub_tx, dev_ioctl, Event, ioctl, opens, releases, ships, writes, queues, run,
}
use la9310_driver.Rfnm.Pool.Conserve.Steps.{IsPools, Kept}
use la9310_driver.Rfnm.Pool.Conserve.History.{run-Kept}
use la9310_driver.Rfnm.Pool.Order.{IsOrdered, run-IsOrdered}
use la9310_driver.Rfnm.Pool.Depth.{Culled, cull_stale_lem}
use la9310_driver.Rfnm.Pool.Starve.{reset-starved}

-- A packet for reception is its flag, one for transmission its counter.
abbrev format : Format ℕ ℕ
format = record { usb_cc = λ t. t; mark_discont = λ r. 1 }

abbrev limits : Limits
limits = record { rx_size = 3; tx_size = 2; rx_queue_bound = 1 }

abbrev element : ℕ → ℕ → Ele
element id addr = record { id = id; local_cc = 0; addr = addr }

-- As the module starts.
abbrev fresh : Pools ℕ ℕ
fresh = record {
  rx_free = element 0 0 ∷ element 1 0 ∷ element 2 0 ∷ [];
  rx_ready = [];
  rx_owned = replicate 3 none;
  rx_buf = λ i. 0;
  tx_free = element 0 0 ∷ element 1 1 ∷ [];
  tx_ready = [];
  tx_owned = replicate 2 none;
  tx_buf = λ i. 0;
  rx_queue_depth = 0;
  rx_culled = 0;
  last_addr = no_addr;
  canary = 0;
  rx_errors = 0;
  openers = 0;
  owner_tgid = 0;
  open_refused = 0;
}

abbrev queued : Pools ℕ ℕ
queued = record fresh {
  rx_free = [];
  rx_ready = element 0 0 ∷ element 1 1 ∷ element 2 2 ∷ [];
  rx_queue_depth = 3;
}

fresh-IsPools : IsPools format limits fresh
fresh-IsPools = record { rx_table = refl; tx_table = refl; rx_slots = refl; tx_slots = refl }

-- Two clients' packets, submitted in the wrong order.
abbrev session : List (Event format limits)
session =
    opens 7
    ∷ ioctl true (acq_tx true)
    ∷ writes 0 9
    ∷ queues 4
    ∷ ioctl true (sub_tx 0)
    ∷ ships 2 0
    ∷ ioctl true (get_rx true)
    ∷ releases
    ∷ []

run-Kept_example :
    IsPools format limits (run format limits session fresh)
    × Kept format limits fresh (run format limits session fresh)
run-Kept_example =
    run-Kept format limits session fresh fresh-IsPools
      (tt, (tt, (tt, (tt, (tt, (omega arith, (tt, (tt, tt))))))))

run-IsOrdered_example : IsOrdered (run format limits session fresh).tx_ready
run-IsOrdered_example = run-IsOrdered format limits session fresh Pairwise.nil

cull_stale_lem_example : Culled format limits queued (cull_stale format limits queued)
cull_stale_lem_example = cull_stale_lem format limits queued (omega arith) (omega arith)

reset-starved_example :
    (dev_ioctl format limits true
      (get_rx true)
      (run format limits (ships 0 5 ∷ []) (reset_stream_io format limits queued))).0
    ≡ enospc
reset-starved_example =
    reset-starved format limits queued (ships 0 5 ∷ []) true (omega arith) (omega arith)
