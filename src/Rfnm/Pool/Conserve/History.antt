-- ===== src/Rfnm/Pool/Conserve/History.antt =====
-- The pools over a history of calls (kernel_driver/la9310rfnm/la9310_rfnm.c).
use la9310_driver.Base.{
  ℕ, ◌≡◌, refl, ap, ◌∙◌, Bool, true, false, not, ◌&&◌, List, [], ◌∷◌, Option, none, some, if-intro,
  length, length-set, ℤ, arith,
}
use la9310_driver.Rfnm.Pool.{Ele, Format, Limits, Pools, claim_tx, abort_tx}
use la9310_driver.Rfnm.Pool.Calls.{
  retire_tx, check_out_tx, check_in_tx, hand_out, tx_acq, Request, get_rx, acq_tx, put_rx, sub_tx,
  unknown, moves_data, answer, dev_ioctl, Event, ioctl, opens, releases, finishes, resets, ships,
  writes, queues, step, run,
}
use la9310_driver.Rfnm.Pool.Conserve.Transmit.{tx_acq-tx}
use la9310_driver.Rfnm.Pool.Conserve.Steps.{
  IsPools, Kept, IsEvent, same, finish-Kept, queue-Kept, reset-Kept, release-Kept, open-Kept,
  ship-Kept, put-Kept, sub-Kept,
}
use la9310_driver.Rfnm.Pool.Conserve.Receive.{trans, kept-IsPools, get-Kept}

module _ {R T : Type 0} (f : Format R T) (m : Limits) where
  -- What the calls for transmission leave alone of the other direction, and the size of the table.
  record SameRx (p q : Pools R T) : Type 0 where
    free : q.rx_free ≡ p.rx_free
    ready : q.rx_ready ≡ p.rx_ready
    owned : q.rx_owned ≡ p.rx_owned
    tx_size : length q.tx_owned ≡ length p.tx_owned

  check_out_tx-SameRx : (e : Ele) (p : Pools R T) → SameRx p (check_out_tx f m e p)
  unfolding check_out_tx retire_tx abort_tx
  check_out_tx-SameRx e p = record {
    free = ground arith;
    ready = ground arith;
    owned = ground arith;
    tx_size = let c = length-set p.tx_owned e.addr (some e) in ground arith;
  }

  check_in_tx-SameRx : (i : ℕ) (p : Pools R T) → SameRx p (check_in_tx f m i p)
  unfolding check_in_tx retire_tx abort_tx
  check_in_tx-SameRx i p = record {
    free = ground arith;
    ready = ground arith;
    owned = ground arith;
    tx_size = let c = length-set p.tx_owned i none in ground arith;
  }

  hand_out-SameRx :
      (o : Option Ele) (copied : Bool) (p : Pools R T) → SameRx p (hand_out f m o copied p).1
  unfolding hand_out
  hand_out-SameRx none copied p = record { free = refl; ready = refl; owned = refl; tx_size = refl }
  hand_out-SameRx (some e) true p = check_out_tx-SameRx e p
  hand_out-SameRx (some e) false p =
      let a = check_out_tx-SameRx e p in
      let b = check_in_tx-SameRx e.addr (check_out_tx f m e p) in
      record {
        free = b.free ∙ a.free;
        ready = b.ready ∙ a.ready;
        owned = b.owned ∙ a.owned;
        tx_size = b.tx_size ∙ a.tx_size;
      }

  claim-SameRx : (p : Pools R T) → SameRx p (claim_tx f m p).1
  unfolding claim_tx
  claim-SameRx p = record {
    free = ground arith;
    ready = ground arith;
    owned = ground arith;
    tx_size = ground arith;
  }

  acq-SameRx : (copied : Bool) (p : Pools R T) → SameRx p (tx_acq f m copied p).1
  unfolding tx_acq
  acq-SameRx copied p =
      let a = claim-SameRx p in
      let b = hand_out-SameRx (claim_tx f m p).0 copied (claim_tx f m p).1 in
      record {
        free = b.free ∙ a.free;
        ready = b.ready ∙ a.ready;
        owned = b.owned ∙ a.owned;
        tx_size = b.tx_size ∙ a.tx_size;
      }

  acq-Kept : (copied : Bool) (p : Pools R T) → IsPools f m p → Kept f m p (tx_acq f m copied p).1
  acq-Kept copied p k =
      let b = acq-SameRx copied p in
      record {
        rx = λ v. ground arith;
        tx = λ v.
            tx_acq-tx f m v copied p p.tx_free refl
              (λ e r free. let slots = k.tx_slots in let table = k.tx_table in ground arith);
        rx_size = ap length b.owned;
        tx_size = b.tx_size;
        slots = λ s. ground arith;
      }

  answer-Kept : (r : Request f m) (p : Pools R T) → IsPools f m p → Kept f m p (answer f m r p).1
  unfolding answer
  answer-Kept (get_rx copied) p k = get-Kept f m copied p k
  answer-Kept (acq_tx copied) p k = acq-Kept copied p k
  answer-Kept (put_rx i) p k = put-Kept f m i p k
  answer-Kept (sub_tx i) p k = sub-Kept f m i p k
  answer-Kept unknown p k = same f m p

  step-Kept :
      (ev : Event f m) (p : Pools R T) → IsPools f m p → IsEvent f m ev → Kept f m p (step f m ev p)
  unfolding step dev_ioctl
  step-Kept (ioctl session_ok r) p k h =
      if-intro (λ (q : ℤ × Pools R T). Kept f m p q.1) (moves_data f m r && not session_ok) _ _
        (λ _. same f m p) (λ _. answer-Kept r p k)
  step-Kept (opens tg) p k h = open-Kept f m tg p
  step-Kept releases p k h = release-Kept f m p
  step-Kept finishes p k h = finish-Kept f m p
  step-Kept resets p k h = reset-Kept f m p
  step-Kept (ships addr packet) p k h = ship-Kept f m addr packet p h
  step-Kept (writes addr packet) p k h = record {
    rx = λ v. refl;
    tx = λ v. refl;
    rx_size = refl;
    tx_size = refl;
    slots = λ s. s;
  }
  step-Kept (queues packet) p k h = queue-Kept f m packet p

  abbrev pub AreEvents : List (Event f m) → Type 0
  AreEvents [] = Unit
  AreEvents (ev ∷ evs) = IsEvent f m ev × AreEvents evs

  -- Over any history of calls, of packets that the producer ships and the consumer sends, and of
  -- resets, the two pools keep their elements: none is lost, made up or exchanged between them, and
  -- each for transmission keeps its slot. The tables keep their sizes, and the elements for reception
  -- that are queued as filled keep pointing at slots of their buffer.
  pub run-Kept :
      (evs : List (Event f m)) (p : Pools R T)
      → IsPools f m p
      → AreEvents evs
      → IsPools f m (run f m evs p) × Kept f m p (run f m evs p)
  unfolding run
  run-Kept [] p k h = (k, same f m p)
  run-Kept (ev ∷ evs) p k h =
      let first = step-Kept ev p k h.0 in
      let rest = run-Kept evs (step f m ev p) (kept-IsPools f m k first) h.1 in
      (rest.0, trans f m first rest.1)
