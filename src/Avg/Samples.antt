-- ===== src/Avg/Samples.antt =====
-- What a sliding average says of the samples that it was given.
use cratetorrent.Prelude.{
  ℕ, ◌+◌, ◌-◌, ◌*◌, ◌/◌, ◌^◌, ◌<◌, ◌≤◌, ◌≡◌, refl, arith, List, [], ◌∷◌, Checked, ret, panic, ◌>>=◌,
  false, ◌==◌, All,
}
use cratetorrent.Prelude.Int.{ℤ, pos, add_i64-pos, div_i64-pos}
use cratetorrent.Avg.{SlidingAvg, new, update, rounded, mean, deviation}
use cratetorrent.Avg.Between.{IsBetween, Lands, IsAverage, Updates, update-IsAverage}

-- A sequence of updates.
abbrev pub update_all : SlidingAvg → List ℕ → Checked SlidingAvg
update_all a [] = ret a
update_all a (s ∷ ss) = update a (pos s) >>= λ a'. update_all a' ss

new-IsAverage : (lo hi gain : ℕ) → 0 < gain → IsAverage lo hi (new gain)
unfolding new
new-IsAverage lo hi gain h = record {
  gain = h;
  counted = omega arith;
  before = λ e. (refl, refl);
  mean_between = λ l. absurd (omega arith);
  deviation_between = λ l. absurd (omega arith);
}

-- The samples lie between two bounds.
abbrev pub AllBetween : ℕ → ℕ → List ℕ → Type 0
AllBetween lo hi ss = All (λ s. (lo ≤ s) × (s ≤ hi)) ss

update_all-IsAverage :
    (lo hi : ℕ) (a : SlidingAvg) (ss : List ℕ)
    → hi < 2 ^ 56
    → IsAverage lo hi a
    → 0 < a.sample_count
    → AllBetween lo hi ss
    → Updates lo hi (update_all a ss)
update_all-IsAverage lo hi a [] h v c b = (v, c)
update_all-IsAverage lo hi a (s ∷ ss) h v c (bs, b) =
    go (update a (pos s)) (update-IsAverage lo hi a s v bs.0 bs.1 h)
      (λ a' v' c'. update_all-IsAverage lo hi a' ss h v' c' b)
  where
    go :
        (r : Checked SlidingAvg)
        → Updates lo hi r
        → ((a' : SlidingAvg)
            → IsAverage lo hi a'
            → 0 < a'.sample_count
            → Updates lo hi (update_all a' ss))
        → Updates lo hi (r >>= λ a'. update_all a' ss)
    go panic u k = u
    go (ret a') (v', c') k = k a' v' c'

rounded-Lands :
    (lo hi count : ℕ) (x : ℤ)
    → 0 < count
    → hi < 2 ^ 56
    → IsBetween (64 * lo) (64 * hi) x
    → Lands lo hi (rounded count x)
rounded-Lands lo hi count x h k b =
    let some_count : (count == 0) ≡ false = ground arith in
    let b1 = b.at_least in
    let b2 = b.at_most in
    rw some_count (
      rw b.is_value (
        rw (add_i64-pos b.value 32 (omega arith)) (
          rw (div_i64-pos (b.value + 32) 64 (omega arith) (omega arith)) record {
            value = (b.value + 32) / 64;
            is_value = refl;
            at_least = omega arith;
            at_most = omega arith;
          })))

-- The reported mean and deviation.
abbrev pub Reports : ℕ → ℕ → Checked SlidingAvg → Type 0
Reports lo hi panic = ⊥
Reports lo hi (ret a) = Lands lo hi (mean a) × Lands 0 (hi - lo) (deviation a)

-- For a positive gain and at least one sample, all of them between two bounds below 2^56, no update
-- overflows; the mean that is then reported lies between the bounds, and the deviation is at most
-- their distance.
pub reports_lem :
    (lo hi gain sample : ℕ) (samples : List ℕ)
    → 0 < gain
    → hi < 2 ^ 56
    → AllBetween lo hi (sample ∷ samples)
    → Reports lo hi (update_all (new gain) (sample ∷ samples))
unfolding mean deviation
reports_lem lo hi gain sample samples g h (bs, b) =
    first (update (new gain) (pos sample))
      (update-IsAverage lo hi (new gain) sample (new-IsAverage lo hi gain g) bs.0 bs.1 h)
  where
    report : (r : Checked SlidingAvg) → Updates lo hi r → Reports lo hi r
    report panic u = u
    report (ret a) (v, c) = (
      rounded-Lands lo hi a.sample_count a.mean c h (v.mean_between c),
      rounded-Lands 0 (hi - lo) a.sample_count a.deviation c (omega arith) (v.deviation_between c),
    )

    first :
        (r : Checked SlidingAvg) → Updates lo hi r → Reports lo hi (r >>= λ a. update_all a samples)
    first panic u = u
    first (ret a) (v, c) =
        report (update_all a samples) (update_all-IsAverage lo hi a samples h v c b)
