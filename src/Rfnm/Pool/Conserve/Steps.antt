-- ===== src/Rfnm/Pool/Conserve/Steps.antt =====
-- What the steps of the pools keep (kernel_driver/la9310rfnm/la9310_rfnm.c).

use la9310_driver.Base.{
  ℕ, ◌<◌, ◌≡◌, refl, inl, inr, List, [], ◌∷◌, none, leb, if◌then◌else◌, length, length-set, arith,
  Option-cases,
}
use la9310_driver.Rfnm.Pool.{
  Ele, Format, Limits, Pools, entry, rx_ship, release_rx, claim_tx, commit_tx, submit, queue_tx,
  finish_tx, flush_staging, reset_stream_io,
}
use la9310_driver.Rfnm.Pool.Calls.{rx_put, tx_sub, dev_open, dev_release, Event, ships}
use la9310_driver.Rfnm.Pool.Conserve.{outside, rx_weight, tx_weight}
use la9310_driver.Rfnm.Pool.Conserve.Transmit.{
  tx_sub-tx, queue_tx-tx, finish_tx-tx, reset-tx, dev_release-tx,
}
use la9310_driver.Rfnm.Pool.Conserve.Weight.{
  weigh, weigh-append, weigh-move_all, weigh-reclaim, weigh-cleared, weigh-set, length-cleared,
}

module _ {R T : Type 0} (f : Format R T) (m : Limits) where
  -- The tables have an entry for each slot, and the elements that are not free point at slots, in the
  -- pool for transmission all elements do.
  pub record IsPools (p : Pools R T) : Type 0 where
    pub rx_table : length p.rx_owned ≡ m.rx_size
    pub tx_table : length p.tx_owned ≡ m.tx_size
    pub rx_slots : weigh (outside m.rx_size) p.rx_ready ≡ 0
    pub tx_slots : tx_weight f m (λ _ addr. if leb m.tx_size addr then 1 else 0) p ≡ 0

  -- What a step leaves as it was: the weight of the elements, and the sizes of the tables.
  pub record Kept (p q : Pools R T) : Type 0 where
    pub rx : (v : ℕ → ℕ) → rx_weight f m v q ≡ rx_weight f m v p
    pub tx : (v : ℕ → ℕ → ℕ) → tx_weight f m v q ≡ tx_weight f m v p
    pub rx_size : length q.rx_owned ≡ length p.rx_owned
    pub tx_size : length q.tx_owned ≡ length p.tx_owned
    pub slots : weigh (outside m.rx_size) p.rx_ready ≡ 0 → weigh (outside m.rx_size) q.rx_ready ≡ 0

  -- The producer ships slots of the buffer.
  abbrev pub IsEvent : Event f m → Type 0
  IsEvent (ships addr packet) = addr < m.rx_size
  IsEvent ev = Unit {0}

  pub same : (p : Pools R T) → Kept p p
  same p = record { rx = λ v. refl; tx = λ v. refl; rx_size = refl; tx_size = refl; slots = λ h. h }

  pub finish-Kept : (p : Pools R T) → Kept p (finish_tx f m p)
  unfolding finish_tx
  finish-Kept p = record {
    rx = λ v. ground arith;
    tx = λ v. finish_tx-tx f m v p p.tx_ready refl;
    rx_size = ground arith;
    tx_size = ground arith;
    slots = λ h. ground arith;
  }

  pub queue-Kept : (packet : T) (p : Pools R T) → Kept p (queue_tx f m packet p).1
  unfolding queue_tx claim_tx submit commit_tx
  queue-Kept packet p = record {
    rx = λ v. ground arith;
    tx = λ v. queue_tx-tx f m v packet p p.tx_free refl;
    rx_size = ground arith;
    tx_size = ground arith;
    slots = λ h. ground arith;
  }

  pub reset-Kept : (p : Pools R T) → Kept p (reset_stream_io f m p)
  unfolding reset_stream_io
  reset-Kept p = record {
    rx = λ v. let c = weigh-move_all (λ e. v e.id) p.rx_ready p.rx_free in ground arith;
    tx = λ v. reset-tx f m v p;
    rx_size = refl;
    tx_size = refl;
    slots = λ h. refl;
  }

  pub release-Kept : (p : Pools R T) → Kept p (dev_release f m p)
  unfolding dev_release flush_staging
  release-Kept p = record {
    rx = λ v.
        let c = weigh-reclaim (λ e. v e.id) p.rx_owned p.rx_free in
        let d = weigh-cleared (λ e. v e.id) p.rx_owned in ground arith;
    tx = λ v. dev_release-tx f m v p;
    rx_size = let c = length-cleared p.rx_owned in ground arith;
    tx_size = let c = length-cleared p.tx_owned in ground arith;
    slots = λ h. ground arith;
  }

  pub open-Kept : (tg : ℕ) (p : Pools R T) → Kept p (dev_open f m tg p).1
  unfolding dev_open
  open-Kept tg p = record {
    rx = λ v. ground arith;
    tx = λ v. ground arith;
    rx_size = ground arith;
    tx_size = ground arith;
    slots = λ h. ground arith;
  }

  pub ship-Kept :
      (addr : ℕ) (packet : R) (p : Pools R T)
      → addr < m.rx_size
      → Kept p (rx_ship f m addr packet p)
  unfolding rx_ship
  ship-Kept addr packet p h = ship_from p.rx_free refl
    where
      ship_from : (l : List Ele) → p.rx_free ≡ l → Kept p (rx_ship f m addr packet p)
      ship_from [] e = record {
        rx = λ v. ground arith;
        tx = λ v. ground arith;
        rx_size = ground arith;
        tx_size = ground arith;
        slots = λ s. ground arith;
      }
      ship_from (x ∷ l) e =
          let y = record x { addr = addr } in
          record {
            rx = λ v. let c = weigh-append (λ e. v e.id) p.rx_ready (y ∷ []) in ground arith;
            tx = λ v. ground arith;
            rx_size = ground arith;
            tx_size = ground arith;
            slots =
                λ s. let c = weigh-append (outside m.rx_size) p.rx_ready (y ∷ []) in ground arith;
          }

  pub put-Kept : (i : ℕ) (p : Pools R T) → IsPools p → Kept p (rx_put f m i p).1
  unfolding rx_put release_rx
  put-Kept i p k = elim (Option-cases (entry p.rx_owned i)) [
    | inl vacant ↦ record {
      rx = λ v. ground (arith, weigh-set (λ (e : Ele). v e.id) p.rx_owned i none, k.rx_table);
      tx = λ v. ground arith;
      rx_size = let c = length-set p.rx_owned i none in ground arith;
      tx_size = ground arith;
      slots = λ h. ground arith;
    }
    | inr (old, taken) ↦ record {
      rx = λ v.
          let d = weigh-append (λ (e : Ele). v e.id) p.rx_free (old ∷ []) in
          ground (arith, weigh-set (λ (e : Ele). v e.id) p.rx_owned i none, k.rx_table);
      tx = λ v. ground arith;
      rx_size = let c = length-set p.rx_owned i none in ground arith;
      tx_size = ground arith;
      slots = λ h. ground arith;
    }
  ]

  pub sub-Kept : (i : ℕ) (p : Pools R T) → IsPools p → Kept p (tx_sub f m i p).1
  unfolding tx_sub commit_tx
  sub-Kept i p k = record {
    rx = λ v. ground arith;
    tx = λ v. tx_sub-tx f m v i p k.tx_table;
    rx_size = ground arith;
    tx_size = let c = length-set p.tx_owned i none in ground arith;
    slots = λ h. ground arith;
  }
