-- ===== src/Counter/Tests.antt =====
-- A counter over numbers in place of floating point.
use cratetorrent.Prelude.{ℕ, ◌+◌, ◌*◌, ◌/◌, refl, arith, [], ◌∷◌, ◌>>=◌, ltb}
use cratetorrent.Counter.{FloatApi, Counter}
use cratetorrent.Counter.Totals.{run_rounds, add_all, Counts, rounds_lem}

abbrev naturals : FloatApi
naturals = record {
  Float = ℕ;
  of_u64 = λ n. n;
  plus = λ a b. a + b;
  times = λ a b. a * b;
  over = λ a b. a / b;
  greater = λ a b. ltb b a;
  round_u64 = λ n. n;
}

abbrev idle : Counter naturals
idle = record { total = 0; round = 0; avg = 0; peak = 0 }

rounds_lem_example :
    Counts naturals 15 7
      (run_rounds naturals idle ((3 ∷ 5 ∷ []) ∷ []) >>= λ c. add_all naturals c (7 ∷ []))
rounds_lem_example = rounds_lem naturals idle ((3 ∷ 5 ∷ []) ∷ []) (7 ∷ []) refl (omega arith)
