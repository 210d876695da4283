-- ===== src/Rfnm/Pool/Conserve/Weight.antt =====
-- The weight of the elements in the lists and tables of the pools
-- (kernel_driver/la9310rfnm/la9310_rfnm.c).
use mathlib.Core.List.{reverse, reverse-cons}
use la9310_driver.Base.{
  ℕ, zero, suc, ◌+◌, ◌-◌, ◌<◌, ◌≡◌, refl, List, [], ◌∷◌, ◌++◌, Option, none, some, length, set,
  arith,
}
use la9310_driver.Rfnm.Pool.{
  Ele, entry, cull, move_all, reclaim, cleared, insert_back, insert_sorted,
}

module _ (w : Ele → ℕ) where
  abbrev pub weigh : List Ele → ℕ
  weigh [] = 0
  weigh (e ∷ l) = w e + weigh l

  abbrev pub weigh_entry : Option Ele → ℕ
  weigh_entry none = 0
  weigh_entry (some e) = w e

  abbrev pub weigh_table : List (Option Ele) → ℕ
  weigh_table [] = 0
  weigh_table (o ∷ t) = weigh_entry o + weigh_table t

  pub weigh-append : (l r : List Ele) → weigh (l ++ r) ≡ weigh l + weigh r
  weigh-append [] r = omega arith
  weigh-append (e ∷ l) r = omega (arith, weigh-append l r)

  weigh-reverse : (l : List Ele) → weigh (reverse l) ≡ weigh l
  weigh-reverse [] = refl
  weigh-reverse (e ∷ l) =
      rw (reverse-cons e l) (omega (arith, weigh-append (reverse l) (e ∷ []), weigh-reverse l))

  weigh-insert_back : (e : Ele) (l : List Ele) → weigh (insert_back e l) ≡ w e + weigh l
  unfolding insert_back
  weigh-insert_back e [] = refl
  weigh-insert_back e (c ∷ l) = ground (arith, weigh-insert_back e l)

  pub weigh-insert_sorted : (e : Ele) (l : List Ele) → weigh (insert_sorted e l) ≡ w e + weigh l
  unfolding insert_sorted
  weigh-insert_sorted e l = omega (
    arith,
    weigh-reverse (insert_back e (reverse l)),
    weigh-insert_back e (reverse l),
    weigh-reverse l,
  )

  pub weigh-move_all : (l to : List Ele) → weigh (move_all l to) ≡ weigh l + weigh to
  unfolding move_all
  weigh-move_all [] to = omega arith
  weigh-move_all (e ∷ l) to =
      omega (arith, weigh-move_all l (to ++ (e ∷ [])), weigh-append to (e ∷ []))

  pub weigh-reclaim :
      (t : List (Option Ele)) (to : List Ele) → weigh (reclaim t to) ≡ weigh_table t + weigh to
  unfolding reclaim
  weigh-reclaim [] to = omega arith
  weigh-reclaim (none ∷ t) to = omega (arith, weigh-reclaim t to)
  weigh-reclaim (some e ∷ t) to =
      omega (arith, weigh-reclaim t (to ++ (e ∷ [])), weigh-append to (e ∷ []))

  pub weigh-cleared : (t : List (Option Ele)) → weigh_table (cleared t) ≡ 0
  weigh-cleared [] = refl
  weigh-cleared (o ∷ t) = omega (arith, weigh-cleared t)

  -- An exchange of an entry.
  pub weigh-set :
      (t : List (Option Ele)) (i : ℕ) (o : Option Ele)
      → i < length t
      → weigh_table (set t i o) + weigh_entry (entry t i) ≡ weigh_table t + weigh_entry o
  weigh-set [] i o h = absurd (omega arith)
  weigh-set (x ∷ t) zero o h = omega arith
  weigh-set (x ∷ t) (suc i) o h = omega (arith, weigh-set t i o (omega arith))

  pub weigh-cull :
      (bound : ℕ) (l free : List Ele) (depth n : ℕ)
      → weigh (cull bound l free depth n).0 + weigh (cull bound l free depth n).1
        ≡ weigh l + weigh free
  unfolding cull
  weigh-cull bound [] free depth n = omega arith
  weigh-cull bound (e ∷ l) free depth n =
      let ih = weigh-cull bound l (free ++ (e ∷ [])) (depth - 1) (n + 1) in
      let moved = weigh-append free (e ∷ []) in ground arith

  pub cull_left :
      (bound : ℕ) (l free : List Ele) (depth n : ℕ)
      → weigh l ≡ 0
      → weigh (cull bound l free depth n).0 ≡ 0
  unfolding cull
  cull_left bound [] free depth n h = h
  cull_left bound (e ∷ l) free depth n h =
      let ih = cull_left bound l (free ++ (e ∷ [])) (depth - 1) (n + 1) (omega arith) in
      ground arith

pub length-cleared : (t : List (Option Ele)) → length (cleared t) ≡ length t
length-cleared [] = refl
length-cleared (o ∷ t) = omega (arith, length-cleared t)
