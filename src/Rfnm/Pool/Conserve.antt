-- ===== src/Rfnm/Pool/Conserve.antt =====
-- No call loses an element of a pool or makes one up
-- (kernel_driver/la9310rfnm/la9310_rfnm.c).
pub mod Weight
pub mod Transmit
pub mod Steps
pub mod Receive
pub mod History
use la9310_driver.Base.{
  ℕ, zero, suc, ◌+◌, ◌-◌, ◌<◌, ◌≤◌, ◌≡◌, refl, inl, inr, Bool, true, false, List, [], ◌∷◌, ◌++◌,
  Option, none, some, leb, ltb, ◌==◌, if◌then◌else◌, length, length-set, set, arith, Bool-cases,
  Option-cases,
}
use la9310_driver.Rfnm.Pool.{
  Ele, Format, Limits, Pools, entry, cull, cull_stale, move_all, reclaim, cleared, insert_sorted,
  rx_ship, release_rx, dequeue_rx_ref, claim_tx, commit_tx, abort_tx, queue_tx, fill_tx, finish_tx,
  flush_staging, reset_stream_io,
}
use la9310_driver.Rfnm.Pool.Calls.{
  retire_rx, retire_tx, check_out_rx, check_in_rx, deliver, get_next, rx_get, rx_put, check_out_tx,
  check_in_tx, tx_acq, tx_sub, Request, get_rx, acq_tx, put_rx, sub_tx, unknown, answer, dev_ioctl,
  dev_open, dev_release, Event, ioctl, opens, releases, finishes, resets, ships, writes, queues,
  step, run,
}
use la9310_driver.Rfnm.Pool.Conserve.Weight.{
  weigh, weigh_entry, weigh_table, weigh-append, weigh-insert_sorted, weigh-move_all, weigh-reclaim,
  weigh-cleared, weigh-set, weigh-cull, cull_left, length-cleared,
}

-- An element whose slot is not one of `n`.
abbrev pub outside : ℕ → Ele → ℕ
outside n e = if leb n e.addr then 1 else 0

pub inside : (n : ℕ) (e : Ele) (l : List Ele) → weigh (outside n) (e ∷ l) ≡ 0 → e.addr < n
inside n e l h = ground arith

module _ {R T : Type 0} (f : Format R T) (m : Limits) where
  -- The weight of all elements of a pool. The weight of one is a function of its identity, and in the
  -- pool for transmission of its slot too.
  abbrev pub rx_weight : (ℕ → ℕ) → Pools R T → ℕ
  rx_weight v p =
      let w = λ (e : Ele). v e.id in
      weigh w p.rx_free + weigh w p.rx_ready + weigh_table w p.rx_owned

  abbrev pub tx_weight : (ℕ → ℕ → ℕ) → Pools R T → ℕ
  tx_weight v p =
      let w = λ (e : Ele). v e.id e.addr in
      weigh w p.tx_free + weigh w p.tx_ready + weigh_table w p.tx_owned

  pub cull_stale-rx : (v : ℕ → ℕ) (p : Pools R T) → rx_weight v (cull_stale f m p) ≡ rx_weight v p
  unfolding cull_stale
  cull_stale-rx v p =
      let c = weigh-cull (λ e. v e.id) m.rx_queue_bound p.rx_ready p.rx_free p.rx_queue_depth 0 in
      ground arith

  check_out_rx-rx :
      (v : ℕ → ℕ) (e : Ele) (p : Pools R T)
      → e.addr < length p.rx_owned
      → rx_weight v (check_out_rx f m e p) ≡ rx_weight v p + v e.id
  unfolding check_out_rx retire_rx release_rx
  check_out_rx-rx v e p h =
      let w = λ (e : Ele). v e.id in
      let c = weigh-set w p.rx_owned e.addr (some e) h in
      elim (Option-cases (entry p.rx_owned e.addr)) [
        | inl vacant ↦ ground arith
        | inr (old, taken) ↦ let d = weigh-append w p.rx_free (old ∷ []) in ground arith
      ]

  pub length-check_out_rx :
      (e : Ele) (p : Pools R T) → length (check_out_rx f m e p).rx_owned ≡ length p.rx_owned
  unfolding check_out_rx retire_rx release_rx
  length-check_out_rx e p = let c = length-set p.rx_owned e.addr (some e) in ground arith

  check_in_rx-rx :
      (v : ℕ → ℕ) (i : ℕ) (p : Pools R T)
      → i < length p.rx_owned
      → rx_weight v (check_in_rx f m i p) ≡ rx_weight v p
  unfolding check_in_rx retire_rx release_rx
  check_in_rx-rx v i p h =
      let w = λ (e : Ele). v e.id in
      let c = weigh-set w p.rx_owned i none h in
      elim (Option-cases (entry p.rx_owned i)) [
        | inl vacant ↦ ground arith
        | inr (old, taken) ↦ let d = weigh-append w p.rx_free (old ∷ []) in ground arith
      ]

  -- The head of the delivery queue after the cull lies in the table.
  abbrev pub RxSlots : Pools R T → Type 0
  RxSlots p = weigh (outside (length p.rx_owned)) p.rx_ready ≡ 0

  pub cull_stale-slots :
      (n : ℕ) (p : Pools R T)
      → weigh (outside n) p.rx_ready ≡ 0
      → weigh (outside n) (cull_stale f m p).rx_ready ≡ 0
  unfolding cull_stale
  cull_stale-slots n p h =
      let c = cull_left (outside n) m.rx_queue_bound p.rx_ready p.rx_free p.rx_queue_depth 0 in
      ground arith

  deliver-rx :
      (v : ℕ → ℕ) (o : Option Ele) (copied : Bool) (p : Pools R T)
      → weigh_entry (outside (length p.rx_owned)) o ≡ 0
      → rx_weight v (deliver f m o copied p).1 ≡ rx_weight v p + weigh_entry (λ e. v e.id) o
  unfolding deliver
  deliver-rx v none copied p h = omega arith
  deliver-rx v (some e) copied p h =
      let there : e.addr < length p.rx_owned = ground arith in
      let out = check_out_rx-rx v e p there in
      let same = length-check_out_rx e p in
      let back = check_in_rx-rx v e.addr (check_out_rx f m e p) (omega (arith, same, there)) in
      ground arith

  pub get_next-rx :
      (v : ℕ → ℕ) (copied : Bool) (p : Pools R T) (l : List Ele)
      → p.rx_ready ≡ l
      → RxSlots p
      → rx_weight v (get_next f m copied p).1 ≡ rx_weight v p
  unfolding get_next dequeue_rx_ref
  get_next-rx v copied p [] e h = let d = deliver-rx v none copied p refl in ground arith
  get_next-rx v copied p (x ∷ l) e h =
      let q = record p { rx_ready = l; rx_queue_depth = p.rx_queue_depth - 1 } in
      let d = deliver-rx v (some x) copied q (ground arith) in ground arith
