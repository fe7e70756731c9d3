-- ===== src/Avg/Tests.antt =====
-- Three samples.
use cratetorrent.Prelude.{◌≡◌, refl, arith, [], ◌∷◌, ret, ◌>>=◌}
use cratetorrent.Prelude.Int.{pos, mul_i64, sub_i64, div_i64, add_i64, abs_i64}
use cratetorrent.Avg.{new, update, mean}
use cratetorrent.Avg.Samples.{update_all, Reports, reports_lem}

reports_lem_example : Reports 10 13 (update_all (new 4) (10 ∷ 13 ∷ 11 ∷ []))
reports_lem_example =
    reports_lem 10 13 4 10 (13 ∷ 11 ∷ []) (omega arith) (omega arith)
      ((omega arith, omega arith), ((omega arith, omega arith), ((omega arith, omega arith), tt)))

mean_of_three : (update_all (new 4) (10 ∷ 13 ∷ 11 ∷ []) >>= mean) ≡ ret (pos 11)
unfolding new update mean mul_i64 sub_i64 div_i64 add_i64 abs_i64
mean_of_three = refl
