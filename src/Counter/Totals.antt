-- ===== src/Counter/Totals.antt =====
-- What a counter counts over several rounds.
use cratetorrent.Prelude.{
  ℕ, ◌+◌, ◌^◌, ◌<◌, ◌≡◌, refl, arith, List, [], ◌∷◌, Checked, ret, panic, ◌>>=◌, lt→ltb,
}
use cratetorrent.Counter.{FloatApi, Counter, add, reset}

-- The bytes of a list of transfers.
abbrev pub sum : List ℕ → ℕ
sum [] = 0
sum (n ∷ ns) = n + sum ns

abbrev pub sum_rounds : List (List ℕ) → ℕ
sum_rounds [] = 0
sum_rounds (r ∷ rs) = sum r + sum_rounds rs

module _ (api : FloatApi) where
  -- The transfers of a round.
  abbrev pub add_all : Counter api → List ℕ → Checked (Counter api)
  add_all c [] = ret c
  add_all c (n ∷ ns) = add api c n >>= λ c'. add_all c' ns

  -- Rounds that are over.
  abbrev pub run_rounds : Counter api → List (List ℕ) → Checked (Counter api)
  run_rounds c [] = ret c
  run_rounds c (r ∷ rs) = add_all c r >>= λ c'. run_rounds (reset api c') rs

  abbrev pub Counts : ℕ → ℕ → Checked (Counter api) → Type 0
  Counts total round panic = ⊥
  Counts total round (ret c) = (c.total ≡ total) × (c.round ≡ round)

  record Added (c : Counter api) (n : ℕ) (c' : Counter api) : Type 0 where
    totals : c'.total ≡ c.total + n
    rounds : c'.round ≡ c.round + n

  add_all-Added :
      (c : Counter api) (ns : List ℕ)
      → c.total + sum ns < 2 ^ 64
      → c.round + sum ns < 2 ^ 64
      → (c' : Counter api) × (add_all c ns ≡ ret c') × Added c (sum ns) c'
  unfolding add
  add_all-Added c [] h k = (c, refl, record { totals = omega arith; rounds = omega arith })
  add_all-Added c (n ∷ ns) h k =
      let d : Counter api = record c { total = c.total + n; round = c.round + n } in
      let (c', e, a) = add_all-Added d ns (omega arith) (omega arith) in
      let t = a.totals in
      let r = a.rounds in
      (
        c',
        rw (lt→ltb (c.total + n) (2 ^ 64) (omega arith))
            (rw (lt→ltb (c.round + n) (2 ^ 64) (omega arith)) e),
        record { totals = omega arith; rounds = omega arith },
      )

  -- From a counter with an empty round, over rounds of transfers that each end with a reset, and then
  -- the transfers of a round that is not over: while the total stays below 2^64 nothing panics, the
  -- total grows by all bytes transferred, and the round's count is that of the last round alone.
  pub rounds_lem :
      (c : Counter api) (rounds : List (List ℕ)) (last : List ℕ)
      → c.round ≡ 0
      → c.total + (sum_rounds rounds + sum last) < 2 ^ 64
      → Counts
          (c.total + (sum_rounds rounds + sum last))
          (sum last)
          (run_rounds c rounds >>= λ c'. add_all c' last)
  unfolding reset
  rounds_lem c [] last z h =
      let (c', e, a) = add_all-Added c last (omega arith) (omega arith) in
      let t = a.totals in let r = a.rounds in rw e (omega arith, omega arith)
  rounds_lem c (r ∷ rs) last z h =
      let (c', e, a) = add_all-Added c r (omega arith) (omega arith) in
      let t = a.totals in
      let same : c'.total + (sum_rounds rs + sum last)
          ≡ c.total + (sum r + sum_rounds rs + sum last) =
        omega arith in
      rw (e, ← same) (rounds_lem (reset api c') rs last refl (omega arith))
