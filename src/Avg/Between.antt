-- ===== src/Avg/Between.antt =====
-- The average stays between the samples.
use native.Mathlib.Nat.{div-le_self}
use native.Mathlib.Decide.{dec_lt}
use cratetorrent.Prelude.{
  ℕ, ◌+◌, ◌-◌, ◌*◌, ◌/◌, ◌^◌, ◌<◌, ◌≤◌, ◌≡◌, refl, arith, inl, inr, Bool-cases, Checked, ret, panic,
  ◌>>=◌, ltb, if◌then◌else◌, ltb→lt, ltb_false→le, suc,
}
use cratetorrent.Prelude.Int.{
  ℤ, pos, sub_i64, abs_i64, sub_i64-pos, sub_i64-negsuc, div_i64-pos, div_i64-negsuc, add_i64-pos,
  add_i64-sub, mul_i64-pos, abs_i64-pos, abs_i64-negsuc,
}
use cratetorrent.Avg.{SlidingAvg, approach, distance, next_count, update}

-- An integer that lies in a range of numbers.
pub record IsBetween (lo hi : ℕ) (x : ℤ) : Type 0 where
  pub value : ℕ
  pub is_value : x ≡ pos value
  pub at_least : lo ≤ value
  pub at_most : value ≤ hi

abbrev pub Lands : ℕ → ℕ → Checked ℤ → Type 0
Lands lo hi panic = ⊥
Lands lo hi (ret x) = IsBetween lo hi x

-- A step from `m` by a part of the distance to `s` does not leave their range.
approach-Lands :
    (lo hi m s n : ℕ)
    → lo ≤ m
    → m ≤ hi
    → lo ≤ s
    → s ≤ hi
    → hi < 2 ^ 63
    → 0 < n
    → Lands lo hi (approach (pos m) (pos s) n)
approach-Lands lo hi m s n a b c d e f = elim (dec_lt s m) [
  | yes l ↦
      let less : suc (m - s - 1) ≡ m - s = omega arith in
      let small : suc (m - s - 1) / n ≤ m = omega (arith, div-le_self (suc (m - s - 1)) n) in
      rw (sub_i64-negsuc s m l (omega arith)) (
        rw (div_i64-negsuc (m - s - 1) n f (omega arith)) (
          rw (add_i64-sub m (suc (m - s - 1) / n) small (omega arith)) record {
            value = m - suc (m - s - 1) / n;
            is_value = refl;
            at_least = omega (arith, div-le_self (suc (m - s - 1)) n);
            at_most = omega arith;
          }))
  | no l ↦
      let small = div-le_self (s - m) n in
      rw (sub_i64-pos s m (omega arith) (omega arith)) (
        rw (div_i64-pos (s - m) n f (omega arith)) (
          rw (add_i64-pos m ((s - m) / n) (omega arith)) record {
            value = m + (s - m) / n;
            is_value = refl;
            at_least = omega arith;
            at_most = omega arith;
          }))
]

-- The mean is between the bounds and the deviation at most their distance, in fixed point, once there
-- is a sample.
pub record IsAverage (lo hi : ℕ) (a : SlidingAvg) : Type 0 where
  pub gain : 0 < a.inverted_gain
  pub counted : a.sample_count ≤ a.inverted_gain
  pub before : a.sample_count ≡ 0 → (a.mean ≡ pos 0) × (a.deviation ≡ pos 0)
  pub mean_between : 0 < a.sample_count → IsBetween (64 * lo) (64 * hi) a.mean
  pub deviation_between : 0 < a.sample_count → IsBetween 0 (64 * (hi - lo)) a.deviation

abbrev pub Updates : ℕ → ℕ → Checked SlidingAvg → Type 0
Updates lo hi panic = ⊥
Updates lo hi (ret a) = IsAverage lo hi a × (0 < a.sample_count)

Lands-bind :
    (lo hi l h : ℕ) (m : Checked ℤ) (f : ℤ → Checked SlidingAvg)
    → Lands l h m
    → ((x : ℤ) → IsBetween l h x → Updates lo hi (f x))
    → Updates lo hi (m >>= f)
Lands-bind lo hi l h panic f r k = elim r [ ]
Lands-bind lo hi l h (ret x) f r k = k x r

-- The first step goes all the way.
approach_all : (s : ℕ) → s < 2 ^ 63 → approach (pos 0) (pos s) 1 ≡ ret (pos s)
approach_all s h =
    let whole : (s - 0) / 1 ≡ s = omega arith in
    let plain : 0 + s ≡ s = omega arith in
    rw (sub_i64-pos s 0 (omega arith) h) (
      rw (div_i64-pos (s - 0) 1 (omega arith) (omega arith))
        (rw whole (rw (add_i64-pos 0 s (omega arith)) (rw plain refl))))

abs_gap-Lands :
    (d m s : ℕ)
    → m ≤ s + d
    → s ≤ m + d
    → m < 2 ^ 63
    → s < 2 ^ 63
    → Lands 0 d (sub_i64 (pos m) (pos s) >>= abs_i64)
abs_gap-Lands d m s h k e f = elim (dec_lt m s) [
  | yes l ↦ rw (sub_i64-negsuc m s l f) (
      rw (abs_i64-negsuc (s - m - 1) (omega arith)) record {
        value = suc (s - m - 1);
        is_value = refl;
        at_least = omega arith;
        at_most = omega arith;
      })
  | no l ↦ rw (sub_i64-pos m s (omega arith) e) (
      rw (abs_i64-pos (m - s) (omega arith))
        record { value = m - s; is_value = refl; at_least = omega arith; at_most = omega arith })
]

module _ (lo hi : ℕ) (a : SlidingAvg) (sample : ℕ) (v : IsAverage lo hi a) (above : lo ≤ sample)
    (below : sample ≤ hi) (small : hi < 2 ^ 56) where
  zero-IsBetween : (d : ℕ) → IsBetween 0 d (pos 0)
  zero-IsBetween d = record {
    value = 0;
    is_value = refl;
    at_least = omega arith;
    at_most = omega arith;
  }

  distance-Lands : Lands 0 (64 * (hi - lo)) (distance a (pos (sample * 64)))
  distance-Lands = elim (Bool-cases (ltb 0 a.sample_count)) [
    | inl t ↦
        let m = v.mean_between (ltb→lt 0 a.sample_count t) in
        let b1 = m.at_least in
        let b2 = m.at_most in
        rw t (
          rw m.is_value (
            abs_gap-Lands (64 * (hi - lo)) m.value (sample * 64) (omega arith) (omega arith)
              (omega arith) (omega arith)))
    | inr t ↦ rw t (zero-IsBetween (64 * (hi - lo)))
  ]

  mean-Lands : Lands (64 * lo) (64 * hi) (approach a.mean (pos (sample * 64)) (next_count a))
  mean-Lands = elim (Bool-cases (ltb 0 a.sample_count)) [
    | inl t ↦
        let some_count = ltb→lt 0 a.sample_count t in
        let m = v.mean_between some_count in
        rw m.is_value (
          approach-Lands (64 * lo) (64 * hi) m.value (sample * 64) (next_count a) m.at_least
            m.at_most (omega arith) (omega arith) (omega arith) (ground arith))
    | inr t ↦
        let none_yet : a.sample_count ≡ 0 = omega (arith, ltb_false→le 0 a.sample_count t) in
        let gain = v.gain in
        let first : next_count a ≡ 1 = ground arith in
        rw (v.before none_yet).0 (
          rw first (
            rw (approach_all (sample * 64) (omega arith)) record {
              value = sample * 64;
              is_value = refl;
              at_least = omega arith;
              at_most = omega arith;
            }))
  ]

  old_deviation : IsBetween 0 (64 * (hi - lo)) a.deviation
  old_deviation = elim (Bool-cases (ltb 0 a.sample_count)) [
    | inl t ↦ v.deviation_between (ltb→lt 0 a.sample_count t)
    | inr t ↦
        let none_yet : a.sample_count ≡ 0 = omega (arith, ltb_false→le 0 a.sample_count t) in
        rw (v.before none_yet).1 (zero-IsBetween (64 * (hi - lo)))
  ]

  deviation-Lands :
      (d : ℤ)
      → IsBetween 0 (64 * (hi - lo)) d
      → Lands 0 (64 * (hi - lo)) (
          if ltb 1 (next_count a)
          then approach a.deviation d (next_count a - 1)
          else ret a.deviation)
  deviation-Lands d b = elim (Bool-cases (ltb 1 (next_count a))) [
    | inl t ↦
        let o = old_deviation in
        let more = ltb→lt 1 (next_count a) t in
        rw t (
          rw (o.is_value, b.is_value)
            (approach-Lands 0 (64 * (hi - lo)) o.value b.value (next_count a - 1) o.at_least
              o.at_most b.at_least b.at_most (omega arith) (omega arith)))
    | inr t ↦ rw t old_deviation
  ]

  -- For samples between two bounds below 2^56, `update` does not overflow, and keeps the mean between
  -- the bounds and the deviation within their distance, both in fixed point.
  pub update-IsAverage : Updates lo hi (update a (pos sample))
  unfolding update
  update-IsAverage =
      let gain = v.gain in
      let counted = v.counted in
      rw (mul_i64-pos sample 64 (omega arith)) (
        Lands-bind lo hi 0 (64 * (hi - lo)) (distance a (pos (sample * 64))) _ distance-Lands
          λ d db.
            Lands-bind lo hi (64 * lo) (64 * hi)
              (approach a.mean (pos (sample * 64)) (next_count a)) _ mean-Lands
              λ m mb. Lands-bind lo hi 0 (64 * (hi - lo)) _ _ (deviation-Lands d db) λ e eb. (
                record {
                  gain = v.gain;
                  counted = ground arith;
                  before = λ z. absurd (ground arith);
                  mean_between = λ h. mb;
                  deviation_between = λ h. eb;
                },
                ground arith,
              ))
