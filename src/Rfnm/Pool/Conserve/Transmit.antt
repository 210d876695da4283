-- ===== src/Rfnm/Pool/Conserve/Transmit.antt =====
-- The pool for transmission keeps its elements (kernel_driver/la9310rfnm/la9310_rfnm.c).
use la9310_driver.Base.{
  ℕ, ◌+◌, ◌<◌, ◌≡◌, refl, inl, inr, Bool, List, [], ◌∷◌, none, some, length, length-set, set, arith,
  Option-cases,
}
use la9310_driver.Rfnm.Pool.{
  Ele, Format, Limits, Pools, entry, reclaim, claim_tx, commit_tx, abort_tx, fill_tx, submit,
  queue_tx, finish_tx, flush_staging, reset_stream_io,
}
use la9310_driver.Rfnm.Pool.Calls.{
  retire_tx, check_out_tx, check_in_tx, hand_out, tx_acq, tx_sub, dev_release,
}
use la9310_driver.Rfnm.Pool.Conserve.{tx_weight}
use la9310_driver.Rfnm.Pool.Conserve.Weight.{
  weigh-append, weigh-insert_sorted, weigh-move_all, weigh-reclaim, weigh-cleared, weigh-set,
}

module _ {R T : Type 0} (f : Format R T) (m : Limits) (v : ℕ → ℕ → ℕ) where
  abbrev pub w : Ele → ℕ
  w e = v e.id e.addr

  commit_tx-tx :
      (e : Ele) (p : Pools R T) → tx_weight f m v (commit_tx f m e p) ≡ tx_weight f m v p + w e
  unfolding commit_tx
  commit_tx-tx e p =
      let c =
        weigh-insert_sorted w (record e { local_cc = f.usb_cc (p.tx_buf e.addr) }) p.tx_ready in
      ground arith

  check_out_tx-tx :
      (e : Ele) (p : Pools R T)
      → e.addr < length p.tx_owned
      → tx_weight f m v (check_out_tx f m e p) ≡ tx_weight f m v p + w e
  unfolding check_out_tx retire_tx abort_tx
  check_out_tx-tx e p h =
      let c = weigh-set w p.tx_owned e.addr (some e) h in
      elim (Option-cases (entry p.tx_owned e.addr)) [
        | inl vacant ↦ ground arith
        | inr (old, taken) ↦ let d = weigh-append w p.tx_free (old ∷ []) in ground arith
      ]

  check_in_tx-tx :
      (i : ℕ) (p : Pools R T)
      → i < length p.tx_owned
      → tx_weight f m v (check_in_tx f m i p) ≡ tx_weight f m v p
  unfolding check_in_tx retire_tx abort_tx
  check_in_tx-tx i p h =
      let c = weigh-set w p.tx_owned i none h in
      elim (Option-cases (entry p.tx_owned i)) [
        | inl vacant ↦ ground arith
        | inr (old, taken) ↦ let d = weigh-append w p.tx_free (old ∷ []) in ground arith
      ]

  pub length-check_out_tx :
      (e : Ele) (p : Pools R T) → length (check_out_tx f m e p).tx_owned ≡ length p.tx_owned
  unfolding check_out_tx retire_tx abort_tx
  length-check_out_tx e p = let c = length-set p.tx_owned e.addr (some e) in ground arith

  hand_out-tx :
      (e : Ele) (copied : Bool) (p : Pools R T)
      → e.addr < length p.tx_owned
      → tx_weight f m v (hand_out f m (some e) copied p).1 ≡ tx_weight f m v p + w e
  unfolding hand_out
  hand_out-tx e copied p there =
      let out = check_out_tx-tx e p there in
      let same = length-check_out_tx e p in
      let back = check_in_tx-tx e.addr (check_out_tx f m e p) (omega (arith, same, there)) in
      ground arith

  pub tx_acq-tx :
      (copied : Bool) (p : Pools R T) (l : List Ele)
      → p.tx_free ≡ l
      → ((e : Ele) (r : List Ele) → l ≡ e ∷ r → e.addr < length p.tx_owned)
      → tx_weight f m v (tx_acq f m copied p).1 ≡ tx_weight f m v p
  unfolding tx_acq claim_tx hand_out
  tx_acq-tx copied p [] e h = ground arith
  tx_acq-tx copied p (x ∷ l) e h =
      let d = hand_out-tx x copied (record p { tx_free = l }) (h x l refl) in ground arith

  pub tx_sub-tx :
      (i : ℕ) (p : Pools R T)
      → length p.tx_owned ≡ m.tx_size
      → tx_weight f m v (tx_sub f m i p).1 ≡ tx_weight f m v p
  unfolding tx_sub
  tx_sub-tx i p size = elim (Option-cases (entry p.tx_owned i)) [
    | inl vacant ↦
        let c = λ (h : i < length p.tx_owned). weigh-set w p.tx_owned i none h in
        ground (arith, weigh-set w p.tx_owned i none)
    | inr (old, taken) ↦
        let c = commit_tx-tx old (record p { tx_owned = set p.tx_owned i none }) in
        ground (arith, weigh-set w p.tx_owned i none)
  ]

  pub queue_tx-tx :
      (packet : T) (p : Pools R T) (l : List Ele)
      → p.tx_free ≡ l
      → tx_weight f m v (queue_tx f m packet p).1 ≡ tx_weight f m v p
  unfolding queue_tx claim_tx submit
  queue_tx-tx packet p [] e = ground arith
  queue_tx-tx packet p (x ∷ l) e =
      let c = commit_tx-tx x (fill_tx f m x.addr packet (record p { tx_free = l })) in ground arith

  pub finish_tx-tx :
      (p : Pools R T) (l : List Ele)
      → p.tx_ready ≡ l
      → tx_weight f m v (finish_tx f m p) ≡ tx_weight f m v p
  unfolding finish_tx
  finish_tx-tx p [] e = ground arith
  finish_tx-tx p (x ∷ l) e = let c = weigh-append w p.tx_free (x ∷ []) in ground arith

  pub reset-tx : (p : Pools R T) → tx_weight f m v (reset_stream_io f m p) ≡ tx_weight f m v p
  unfolding reset_stream_io
  reset-tx p = let c = weigh-move_all w p.tx_ready p.tx_free in ground arith

  pub dev_release-tx : (p : Pools R T) → tx_weight f m v (dev_release f m p) ≡ tx_weight f m v p
  unfolding dev_release flush_staging
  dev_release-tx p =
      let c = weigh-move_all w p.tx_ready (reclaim p.tx_owned p.tx_free) in
      let d = weigh-reclaim w p.tx_owned p.tx_free in
      let z = weigh-cleared w p.tx_owned in ground arith
