-- ===== src/Rfnm/Pool/Starve.antt =====
-- What a reset of the stream does to the bound of the delivery queue
-- (`rfnm_reset_stream_io_state` of kernel_driver/la9310rfnm/la9310_rfnm.c).

use la9310_driver.Base.{
  ℕ, ◌≤◌, ◌≡◌, ◌≢◌, refl, ap, ◌∙◌, Bool, true, false, not, ◌&&◌, if-intro, List, [], ◌∷◌, Option,
  none, some, length, length-append, ℤ, arith,
}
use la9310_driver.Rfnm.Pool.{
  Ele, Format, Limits, Pools, enospc, claim_tx, abort_tx, commit_tx, submit, queue_tx, finish_tx,
  flush_staging, reset_stream_io, rx_ship, release_rx,
}
use la9310_driver.Rfnm.Pool.Calls.{
  rx_put, retire_tx, check_out_tx, check_in_tx, hand_out, tx_acq, tx_sub, Request, get_rx, acq_tx,
  put_rx, sub_tx, unknown, moves_data, answer, dev_ioctl, dev_open, dev_release, Event, ioctl,
  opens, releases, finishes, resets, ships, writes, queues, step, run,
}
use la9310_driver.Rfnm.Pool.Depth.{IsStarved, get-IsStarved}

module _ {R T : Type 0} (f : Format R T) (m : Limits) where
  -- The queue and its depth are as before.
  record SameRx (p q : Pools R T) : Type 0 where
    ready : q.rx_ready ≡ p.rx_ready
    depth : q.rx_queue_depth ≡ p.rx_queue_depth

  starved : {p q : Pools R T} → SameRx p q → IsStarved f m p → IsStarved f m q
  starved s h = omega (arith, ap length s.ready, s.depth)

  check_out-SameRx : (e : Ele) (p : Pools R T) → SameRx p (check_out_tx f m e p)
  unfolding check_out_tx retire_tx abort_tx
  check_out-SameRx e p = record { ready = ground arith; depth = ground arith }

  check_in-SameRx : (i : ℕ) (p : Pools R T) → SameRx p (check_in_tx f m i p)
  unfolding check_in_tx retire_tx abort_tx
  check_in-SameRx i p = record { ready = ground arith; depth = ground arith }

  hand_out-SameRx :
      (o : Option Ele) (copied : Bool) (p : Pools R T) → SameRx p (hand_out f m o copied p).1
  unfolding hand_out
  hand_out-SameRx none copied p = record { ready = refl; depth = refl }
  hand_out-SameRx (some e) true p = check_out-SameRx e p
  hand_out-SameRx (some e) false p =
      let a = check_out-SameRx e p in
      let b = check_in-SameRx e.addr (check_out_tx f m e p) in
      record { ready = b.ready ∙ a.ready; depth = b.depth ∙ a.depth }

  claim-SameRx : (p : Pools R T) → SameRx p (claim_tx f m p).1
  unfolding claim_tx
  claim-SameRx p = record { ready = ground arith; depth = ground arith }

  submit-SameRx : (o : Option Ele) (packet : T) (p : Pools R T) → SameRx p (submit f m o packet p).1
  unfolding submit commit_tx
  submit-SameRx none packet p = record { ready = refl; depth = refl }
  submit-SameRx (some e) packet p = record { ready = refl; depth = refl }

  answer-IsStarved :
      (r : Request f m) (p : Pools R T)
      → m.rx_queue_bound ≢ 0
      → IsStarved f m p
      → IsStarved f m (answer f m r p).1
  unfolding answer rx_put release_rx tx_acq tx_sub commit_tx
  answer-IsStarved (get_rx copied) p on s = (get-IsStarved f m copied p on s).1
  answer-IsStarved (acq_tx copied) p on s =
      starved (hand_out-SameRx (claim_tx f m p).0 copied (claim_tx f m p).1)
        (starved (claim-SameRx p) s)
  answer-IsStarved (put_rx i) p on s =
      starved {p = p} {q = (rx_put f m i p).1}
        (record { ready = ground arith; depth = ground arith }) s
  answer-IsStarved (sub_tx i) p on s =
      starved {p = p} {q = (tx_sub f m i p).1}
        (record { ready = ground arith; depth = ground arith }) s
  answer-IsStarved unknown p on s = s

  ship-IsStarved :
      (addr : ℕ) (packet : R) (p : Pools R T) (l : List Ele)
      → p.rx_free ≡ l
      → IsStarved f m p
      → IsStarved f m (rx_ship f m addr packet p)
  unfolding rx_ship
  ship-IsStarved addr packet p [] e s = ground arith
  ship-IsStarved addr packet p (x ∷ l) e s =
      let c = length-append p.rx_ready (record x { addr = addr } ∷ []) in ground arith

  step-IsStarved :
      (ev : Event f m) (p : Pools R T)
      → m.rx_queue_bound ≢ 0
      → IsStarved f m p
      → IsStarved f m (step f m ev p)
  unfolding step dev_ioctl dev_open dev_release flush_staging finish_tx queue_tx reset_stream_io
  step-IsStarved (ioctl session_ok r) p on s =
      if-intro (λ (q : ℤ × Pools R T). IsStarved f m q.1) (moves_data f m r && not session_ok) _ _
        (λ _. s) (λ _. answer-IsStarved r p on s)
  step-IsStarved (opens tg) p on s =
      starved {p = p} {q = (dev_open f m tg p).1}
        (record { ready = ground arith; depth = ground arith }) s
  step-IsStarved releases p on s =
      starved {p = p} {q = (dev_release f m p)}
        (record { ready = ground arith; depth = ground arith }) s
  step-IsStarved finishes p on s =
      starved {p = p} {q = (finish_tx f m p)}
        (record { ready = ground arith; depth = ground arith }) s
  step-IsStarved resets p on s = omega arith
  step-IsStarved (ships addr packet) p on s = ship-IsStarved addr packet p p.rx_free refl s
  step-IsStarved (writes addr packet) p on s = s
  step-IsStarved (queues packet) p on s =
      starved (submit-SameRx (claim_tx f m p).0 packet (claim_tx f m p).1)
        (starved (claim-SameRx p) s)

  run-IsStarved :
      (evs : List (Event f m)) (p : Pools R T)
      → m.rx_queue_bound ≢ 0
      → IsStarved f m p
      → IsStarved f m (run f m evs p)
  unfolding run
  run-IsStarved [] p on s = s
  run-IsStarved (ev ∷ evs) p on s = run-IsStarved evs (step f m ev p) on (step-IsStarved ev p on s)

  -- A reset empties the delivery queue but keeps its depth. Where a bound is set and the depth had
  -- reached it, every later request for a packet is answered with -ENOSPC, whatever the producer
  -- ships in between: the cull throws each packet away.
  pub reset-starved :
      (p : Pools R T) (evs : List (Event f m)) (copied : Bool)
      → m.rx_queue_bound ≢ 0
      → m.rx_queue_bound ≤ p.rx_queue_depth
      → (dev_ioctl f m true (get_rx copied) (run f m evs (reset_stream_io f m p))).0 ≡ enospc
  unfolding dev_ioctl answer reset_stream_io
  reset-starved p evs copied on deep =
      (get-IsStarved f m copied _ on (run-IsStarved evs (reset_stream_io f m p) on (omega arith))).0
