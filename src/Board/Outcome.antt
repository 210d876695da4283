-- ===== src/Board/Outcome.antt =====
-- What an apply reports (kernel_driver/la9310rfnm/rfnm_daughterboard.c): the entries of the report
-- after the walk over both boards, the mark of missing channels and the call of the stream.
use mathlib.Core.Path.{subst}
use mathlib.Core.Option.{some-injective}
use la9310_driver.Base.{
  ℕ, zero, suc, ◌+◌, ◌<◌, ◌≤◌, ◌≡◌, ◌∙◌, sym, refl, ap, ap₂, Bool, true, false, not, ◌&&◌, ◌||◌,
  List, [], ◌∷◌, Option, none, some, if◌then◌else◌, ltb, leb, ℤ, pos, is_zero, get_or, length,
  replicate, arith,
}
use la9310_driver.Base.Fault.{>>=-eq-some}
use la9310_driver.Board.{Rej, rej_none, rej_rate, rej_ch_missing, Codes, Chain}
use la9310_driver.Board.Apply.{
  Platform, Timing, ChList, Dir, Bank, Walk, mark, apply_board, apply_chs, api_error, finish,
  apply_boards,
}
use la9310_driver.Board.Walk.{IsNumbered, AreFates, AreFates-move, entry_at, IsWalk, walk_from}

get_or-mark :
    {A : Type 0} (mask : ℕ → Bool) (v z : A) (k : ℕ) (xs : List A) (j : ℕ)
    → j < length xs
    → get_or (mark mask v k xs) j z ≡ (if mask (k + j) then v else get_or xs j z)
unfolding mark
get_or-mark mask v z k [] j h = absurd (omega arith)
get_or-mark mask v z k (x ∷ xs) zero h = let e : k + 0 ≡ k = omega arith in rw e refl
get_or-mark mask v z k (x ∷ xs) (suc j) h =
    let e : k + suc j ≡ k + 1 + j = omega arith in
    rw e (get_or-mark mask v z (k + 1) xs j (omega arith))

get_or-mark_all :
    {A : Type 0} (mask : ℕ → Bool) (v z : A) (xs : List A) (i : ℕ)
    → i < length xs
    → get_or (mark mask v 0 xs) i z ≡ (if mask i then v else get_or xs i z)
get_or-mark_all mask v z xs i h =
    let e : 0 + i ≡ i = omega arith in
    subst (λ j. get_or (mark mask v 0 xs) i z ≡ (if mask j then v else get_or xs i z)) e
      (get_or-mark mask v z 0 xs i h)

pair-if :
    {A B : Type 0} (b : Bool) (x y : A) (u v : B)
    → ◌≡◌ {A = A × B} (if b then x else y, if b then u else v) (if b then (x, u) else (y, v))
pair-if true x y u v = refl
pair-if false x y u v = refl

length-mark :
    {A : Type 0} (mask : ℕ → Bool) (v : A) (k : ℕ) (xs : List A)
    → length (mark mask v k xs) ≡ length xs
unfolding mark
length-mark mask v k [] = refl
length-mark mask v k (x ∷ xs) = ap suc (length-mark mask v (k + 1) xs)

get_or-replicate : {A : Type 0} (n i : ℕ) (v : A) → get_or (replicate n v) i v ≡ v
get_or-replicate zero i v = refl
get_or-replicate (suc n) zero v = refl
get_or-replicate (suc n) (suc i) v = get_or-replicate n i v

both_boards :
    (m n i : ℕ)
    → ((false || (leb 0 i && ltb i (0 + m))) || (leb m i && ltb i (m + n))) ≡ ltb i (m + n)
both_boards m n i = ground arith

module _ {C W : Type 0} (dir : Dir C W) (l : ChList C) where
  -- The channels of a slot.
  abbrev pub chans : Option (List C) → List C
  chans none = []
  chans (some cs) = cs

  board_from :
      (slot d : ℕ) (o : Option (List C)) (a : Walk W) (old : ℕ → ℤ × Rej)
      (t : Option (List C) × Walk W)
      → a.d ≡ d
      → IsNumbered dir l d (chans o)
      → d + length (chans o) ≤ 8
      → d + length (chans o) ≤ length a.ecodes
      → d + length (chans o) ≤ length a.rej
      → ((i : ℕ) → d ≤ i → entry_at dir l a i ≡ old i)
      → apply_board dir l slot o a ≡ some t
      → IsWalk dir l slot d (chans o) a old (chans t.0, t.1)
  unfolding apply_board apply_chs
  board_from slot d none a old t at_d num m h k same e =
      subst (λ (t : Option (List C) × Walk W). IsWalk dir l slot d [] a old (chans t.0, t.1))
        (some-injective _ _ e) (walk_from dir l slot d [] a old ([], a) at_d num m h k same refl)
  board_from slot d (some cs) a old t at_d num m h k same e =
      let (u, e₁, last) = >>=-eq-some (apply_chs dir l slot cs a) _ e in
      subst (λ (t : Option (List C) × Walk W). IsWalk dir l slot d cs a old (chans t.0, t.1))
        (some-injective _ _ last) (walk_from dir l slot d cs a old u at_d num m h k same e₁)

  module _ (c : Codes) (pf : Platform W) (rate : ℕ) where
    -- The entry of a channel that no board has, and that of a channel with code 0 if the stream could
    -- not be brought up.
    abbrev pub missed : Bool → ℤ × Rej → ℤ × Rej
    missed b entry = if b then (c.not_supported, rej_ch_missing) else entry

    abbrev pub failed : ℤ → ℤ × Rej → ℤ × Rej
    failed r entry =
        if not (is_zero r) && is_zero entry.0
        then (api_error dir l c pf rate r, rej_rate)
        else entry

    abbrev pub streamed : Chain W → ℤ × W
    streamed x = pf.la9310_stream rate x.tx_dac_s x.rx_adc_s x.world

    finish-entry :
        (a : Walk W) (t : Timing) (i : ℕ)
        → i < length a.ecodes
        → i < length a.rej
        → let (report, x, t') = finish dir l c pf rate a t in
          (get_or report.ecodes i (pos 0), get_or report.rej i rej_none)
          ≡ failed
              (streamed a.chain).0
              (missed (l.apply i && not (a.present i)) (entry_at dir l a i))
    unfolding finish
    finish-entry a t i h k =
        let missing : ℕ → Bool = λ j. l.apply j && not (a.present j) in
        let codes = mark missing c.not_supported 0 a.ecodes in
        let rej = mark missing rej_ch_missing 0 a.rej in
        let r = (streamed a.chain).0 in
        let spared : ℕ → Bool = λ j. not (is_zero r) && is_zero (get_or codes j (pos 0)) in
        let h' : i < length codes = omega (arith, length-mark missing c.not_supported 0 a.ecodes) in
        let k' : i < length rej = omega (arith, length-mark missing rej_ch_missing 0 a.rej) in
        let e₁ = get_or-mark_all missing c.not_supported (pos 0) a.ecodes i h in
        let e₂ = get_or-mark_all missing rej_ch_missing rej_none a.rej i k in
        let e₃ = get_or-mark_all spared (api_error dir l c pf rate r) (pos 0) codes i h' in
        let e₄ = get_or-mark_all spared rej_rate rej_none rej i k' in
        let inner : (get_or codes i (pos 0), get_or rej i rej_none)
            ≡ missed (missing i) (entry_at dir l a i) =
          ap₂ (λ x y. (x, y)) e₁ e₂ ∙ pair-if (missing i) _ _ _ _ in
        ap₂ (λ x y. (x, y)) e₃ e₄ ∙ (pair-if (spared i) _ _ _ _ ∙ ap (failed r) inner)

    abbrev pub fresh : ℕ → ℤ × Rej
    fresh i = (pos 0, rej_none)

    -- How many channels there are.
    abbrev pub count : Bank C → ℕ
    count b = length (chans b.dgb0) + length (chans b.dgb1)

    -- The entries after the walk; the chain between the boards and that after them, with which the
    -- stream is called; and the results.
    pub record Applied (b : Bank C) (x : Chain W) (res : Bank C × Chain W × Timing) : Type 0 where
      pub walked : ℕ → ℤ × Rej
      pub between : Chain W
      pub chain : Chain W
      pub fates0 : AreFates dir l 0 0 (chans b.dgb0) (chans res.0.dgb0) fresh walked x between
      pub fates1 :
          AreFates dir l 1
            (length (chans b.dgb0))
            (chans b.dgb1)
            (chans res.0.dgb1)
            fresh
            walked
            between
            chain
      pub entries :
          (i : ℕ)
          → i < 8
          → (get_or res.0.report.ecodes i (pos 0), get_or res.0.report.rej i rej_none)
            ≡ failed (streamed chain).0 (missed (l.apply i && not (ltb i (count b))) (walked i))
      pub confirmed : res.0.report.cc ≡ l.list_cc
      pub after : res.1 ≡ record chain { world = (streamed chain).1 }

    -- An apply, with the channels numbered over both boards and at most 8 of them: each channel is
    -- overwritten, denied or set, and has its entry. The flags and the outside pass from one board call
    -- to the next, and from the last to the call of the stream. Then the entries of the channels that
    -- the client names but no board has are marked, and if the stream cannot be brought up, the entries
    -- with code 0 tell so. The report carries the client's counter.
    pub apply_boards_lem :
        (b : Bank C) (x : Chain W) (t : Timing) (res : Bank C × Chain W × Timing)
        → IsNumbered dir l 0 (chans b.dgb0)
        → IsNumbered dir l (length (chans b.dgb0)) (chans b.dgb1)
        → count b ≤ 8
        → apply_boards dir l c pf rate b x t ≡ some res
        → Applied b x res
    unfolding apply_boards finish
    apply_boards_lem b x t res num0 num1 few e =
        let a₀ : Walk W = record {
          d = 0;
          present = λ i. false;
          ecodes = replicate 8 (pos 0);
          rej = replicate 8 rej_none;
          chain = x;
        } in
        let (p, e₀, rest) = >>=-eq-some (apply_board dir l 0 b.dgb0 a₀) _ e in
        let (q, e₁, last) = >>=-eq-some (apply_board dir l 1 b.dgb1 p.1) _ rest in
        let same₀ : (i : ℕ) → 0 ≤ i → entry_at dir l a₀ i ≡ fresh i = λ i le.
          ap₂ (λ x y. (x, y)) (get_or-replicate 8 i (pos 0)) (get_or-replicate 8 i rej_none) in
        let w₀ =
          board_from 0 0 b.dgb0 a₀ fresh p refl num0 (omega arith) (omega arith) (omega arith) same₀
            e₀ in
        let at₁ : p.1.d ≡ length (chans b.dgb0) = omega (arith, w₀.1) in
        let w₁ =
          board_from 1 (length (chans b.dgb0)) b.dgb1 p.1 fresh q at₁ num1 (omega arith)
            (omega (arith, w₀.2)) (omega (arith, w₀.3))
            (λ i le. w₀.6 i (omega arith) ∙ same₀ i (omega arith)) e₁ in
        subst (Applied b x) (some-injective _ _ last) (record {
          walked = entry_at dir l q.1;
          between = p.1.chain;
          chain = q.1.chain;
          fates0 =
              AreFates-move dir l 0 0 (chans b.dgb0) (chans p.0) fresh x p.1.chain
                (λ i lt. sym (w₁.5 i (omega arith))) w₀.0;
          fates1 = w₁.0;
          entries = λ i lt.
              finish-entry q.1 t i (omega (arith, w₀.2, w₁.2)) (omega (arith, w₀.3, w₁.3))
              ∙ ap
                  (λ z.
                    failed (streamed q.1.chain).0
                      (missed (l.apply i && not z) (entry_at dir l q.1 i)))
                  (w₁.4 i
                    ∙ (ap (λ z. z || (leb (length (chans b.dgb0)) i && ltb i (count b))) (w₀.4 i)
                        ∙ both_boards (length (chans b.dgb0)) (length (chans b.dgb1)) i));
          confirmed = refl;
          after = refl;
        })
