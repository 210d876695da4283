-- ===== src/Rfnm/Pool/Conserve/Receive.antt =====
-- What a request for a received packet keeps (RFNM_LOCAL_RX_GET of
-- kernel_driver/la9310rfnm/la9310_rfnm.c).
use mathlib.Core.Path.{subst}
use la9310_driver.Base.{
  ℕ, ◌-◌, ◌≡◌, refl, sym, ap, ◌∙◌, Bool, true, false, List, [], ◌∷◌, Option, none, some, length,
  length-set, arith,
}
use la9310_driver.Rfnm.Pool.{Ele, Format, Limits, Pools, cull_stale, release_rx, dequeue_rx_ref}
use la9310_driver.Rfnm.Pool.Calls.{retire_rx, check_out_rx, check_in_rx, deliver, get_next, rx_get}
use la9310_driver.Rfnm.Pool.Conserve.{
  outside, RxSlots, cull_stale-rx, cull_stale-slots, get_next-rx,
}
use la9310_driver.Rfnm.Pool.Conserve.Weight.{weigh}
use la9310_driver.Rfnm.Pool.Conserve.Steps.{IsPools, Kept}

module _ {R T : Type 0} (f : Format R T) (m : Limits) where
  -- What the calls for one direction leave alone of the other, and the sizes.
  pub record SameTx (p q : Pools R T) : Type 0 where
    pub free : q.tx_free ≡ p.tx_free
    pub ready : q.tx_ready ≡ p.tx_ready
    pub owned : q.tx_owned ≡ p.tx_owned
    pub rx_size : length q.rx_owned ≡ length p.rx_owned
    pub rx_ready : q.rx_ready ≡ p.rx_ready

  check_out_rx-SameTx : (e : Ele) (p : Pools R T) → SameTx p (check_out_rx f m e p)
  unfolding check_out_rx retire_rx release_rx
  check_out_rx-SameTx e p = record {
    free = ground arith;
    ready = ground arith;
    owned = ground arith;
    rx_size = let c = length-set p.rx_owned e.addr (some e) in ground arith;
    rx_ready = ground arith;
  }

  check_in_rx-SameTx : (i : ℕ) (p : Pools R T) → SameTx p (check_in_rx f m i p)
  unfolding check_in_rx retire_rx release_rx
  check_in_rx-SameTx i p = record {
    free = ground arith;
    ready = ground arith;
    owned = ground arith;
    rx_size = let c = length-set p.rx_owned i none in ground arith;
    rx_ready = ground arith;
  }

  pub deliver-SameTx :
      (o : Option Ele) (copied : Bool) (p : Pools R T) → SameTx p (deliver f m o copied p).1
  unfolding deliver
  deliver-SameTx none copied p = record {
    free = refl;
    ready = refl;
    owned = refl;
    rx_size = refl;
    rx_ready = refl;
  }
  deliver-SameTx (some e) true p = check_out_rx-SameTx e p
  deliver-SameTx (some e) false p =
      let a = check_out_rx-SameTx e p in
      let b = check_in_rx-SameTx e.addr (check_out_rx f m e p) in
      record {
        free = b.free ∙ a.free;
        ready = b.ready ∙ a.ready;
        owned = b.owned ∙ a.owned;
        rx_size = b.rx_size ∙ a.rx_size;
        rx_ready = b.rx_ready ∙ a.rx_ready;
      }

  pub cull-SameTx :
      (p : Pools R T)
      → ((cull_stale f m p).tx_free ≡ p.tx_free)
        × ((cull_stale f m p).tx_ready ≡ p.tx_ready)
        × ((cull_stale f m p).tx_owned ≡ p.tx_owned)
        × ((cull_stale f m p).rx_owned ≡ p.rx_owned)
  unfolding cull_stale
  cull-SameTx p = ground arith

  cull-Kept : (p : Pools R T) → IsPools f m p → Kept f m p (cull_stale f m p)
  cull-Kept p k =
      let t = cull-SameTx p in
      record {
        rx = λ v. cull_stale-rx f m v p;
        tx = λ v. ground arith;
        rx_size = ap length t.3;
        tx_size = ap length t.2;
        slots = cull_stale-slots f m m.rx_size p;
      }

  next-Kept :
      (copied : Bool) (p : Pools R T) (l : List Ele)
      → p.rx_ready ≡ l
      → RxSlots f m p
      → Kept f m p (get_next f m copied p).1
  unfolding get_next dequeue_rx_ref
  next-Kept copied p [] e h = record {
    rx = λ v. get_next-rx f m v copied p [] e h;
    tx = λ v. let t = deliver-SameTx none copied p in ground arith;
    rx_size = let t = deliver-SameTx none copied p in ground arith;
    tx_size = let t = deliver-SameTx none copied p in ground arith;
    slots = λ s. let t = deliver-SameTx none copied p in ground arith;
  }
  next-Kept copied p (x ∷ l) e h =
      let t =
        deliver-SameTx (some x) copied
          (record p { rx_ready = l; rx_queue_depth = p.rx_queue_depth - 1 }) in
      record {
        rx = λ v. get_next-rx f m v copied p (x ∷ l) e h;
        tx = λ v. ground arith;
        rx_size = ground arith;
        tx_size = ground arith;
        slots = λ s. ground arith;
      }

  pub trans : {p q r : Pools R T} → Kept f m p q → Kept f m q r → Kept f m p r
  trans a b = record {
    rx = λ v. b.rx v ∙ a.rx v;
    tx = λ v. b.tx v ∙ a.tx v;
    rx_size = b.rx_size ∙ a.rx_size;
    tx_size = b.tx_size ∙ a.tx_size;
    slots = λ h. b.slots (a.slots h);
  }

  pub kept-IsPools : {p q : Pools R T} → IsPools f m p → Kept f m p q → IsPools f m q
  kept-IsPools k a = record {
    rx_table = a.rx_size ∙ k.rx_table;
    tx_table = a.tx_size ∙ k.tx_table;
    rx_slots = a.slots k.rx_slots;
    tx_slots = a.tx _ ∙ k.tx_slots;
  }

  pub get-Kept :
      (copied : Bool) (p : Pools R T) → IsPools f m p → Kept f m p (rx_get f m copied p).1
  unfolding rx_get
  get-Kept copied p k =
      let c = cull-Kept p k in
      let kc = kept-IsPools k c in
      trans c (
        next-Kept copied (cull_stale f m p) (cull_stale f m p).rx_ready refl (
          subst (λ (n : ℕ). weigh (outside n) (cull_stale f m p).rx_ready ≡ 0) (sym kc.rx_table)
            kc.rx_slots))
