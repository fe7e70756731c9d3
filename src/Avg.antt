-- ===== src/Avg.antt =====
-- cratetorrent/src/avg.rs: a moving average and deviation in fixed point.
pub mod Between
pub mod Samples
mod Tests
use cratetorrent.Prelude.{
  ℕ, ◌+◌, ◌-◌, ◌*◌, ◌/◌, ◌^◌, Checked, ret, panic, ◌>>=◌, ltb, ◌==◌, if◌then◌else◌,
}
use cratetorrent.Prelude.Int.{ℤ, pos, negsuc, add_i64, sub_i64, mul_i64, div_i64, abs_i64}

pub record SlidingAvg : Type 0 where
  pub mean : ℤ
  pub deviation : ℤ
  pub sample_count : ℕ
  pub inverted_gain : ℕ

unfoldable pub new : ℕ → SlidingAvg
new inverted_gain = record {
  mean = pos 0;
  deviation = pos 0;
  sample_count = 0;
  inverted_gain = inverted_gain;
}

-- The distance of the scaled sample from the mean.
abbrev pub distance : SlidingAvg → ℤ → Checked ℤ
distance a scaled =
    let measured = sub_i64 a.mean scaled >>= abs_i64 in
    if ltb 0 a.sample_count then measured else ret (pos 0)

-- Moves an average by a part of its distance from a value.
abbrev pub approach : ℤ → ℤ → ℕ → Checked ℤ
approach from to n = do gap ← sub_i64 to from; step ← div_i64 gap n; add_i64 from step

abbrev pub next_count : SlidingAvg → ℕ
next_count a = if ltb a.sample_count a.inverted_gain then a.sample_count + 1 else a.sample_count

unfoldable pub update : SlidingAvg → ℤ → Checked SlidingAvg
update a sample = do
  scaled ← mul_i64 sample 64
  d ← distance a scaled
  mean ← approach a.mean scaled (next_count a)
  let moved = approach a.deviation d (next_count a - 1)
  deviation ← if ltb 1 (next_count a) then moved else ret a.deviation
  ret (record a { mean = mean; deviation = deviation; sample_count = next_count a })

-- Rounds a fixed point value.
abbrev pub rounded : ℕ → ℤ → Checked ℤ
rounded count x = if count == 0 then ret (pos 0) else (add_i64 x (pos 32) >>= λ y. div_i64 y 64)

unfoldable pub mean : SlidingAvg → Checked ℤ
mean a = rounded a.sample_count a.mean

unfoldable pub deviation : SlidingAvg → Checked ℤ
deviation a = rounded a.sample_count a.deviation

-- `SlidingDurationAvg`, over durations in nanoseconds.
abbrev pub millisecond : ℕ
millisecond = 1_000_000

unfoldable pub update_duration : SlidingAvg → ℕ → Checked SlidingAvg
update_duration a sample =
    let ms = sample / millisecond in if ltb ms (2 ^ 63) then update a (pos ms) else panic

-- `as u64`, which wraps a negative number around.
abbrev pub as_u64 : ℤ → ℕ
as_u64 (pos n) = n
as_u64 (negsuc n) = 2 ^ 64 - (n + 1)

unfoldable pub mean_duration : SlidingAvg → Checked ℕ
mean_duration a = do ms ← mean a; ret (as_u64 ms * millisecond)

unfoldable pub deviation_duration : SlidingAvg → Checked ℕ
deviation_duration a = do ms ← deviation a; ret (as_u64 ms * millisecond)
