-- ===== src/IoVecs/Tests.antt =====
-- Buffers of 2, 3 and 2 bytes.
use cratetorrent.Prelude.{◌≡◌, refl, arith, some, List, [], ◌∷◌, ret, ◌>>=◌, drop}
use cratetorrent.IoVecs.{IoVec, IoVecs, bounded, advance, into_tail}
use cratetorrent.IoVecs.Bytes.{flatten}
use cratetorrent.IoVecs.Bound.{SplitsAt, bounded_lem}
use cratetorrent.IoVecs.Cursor.{Advances, advance_lem}
use cratetorrent.IoVecs.Tail.{Leaves, after_writing, after_writing_lem, into_tail_repeats}

abbrev bufs : List IoVec
bufs = (1 ∷ 2 ∷ []) ∷ (3 ∷ 4 ∷ 5 ∷ []) ∷ (6 ∷ 7 ∷ []) ∷ []

abbrev split_in_second : IoVecs
split_in_second = record {
  bufs = (1 ∷ 2 ∷ []) ∷ (3 ∷ []) ∷ (6 ∷ 7 ∷ []) ∷ [];
  split = some (record { pos = 1; split_buf_second_half = some (4 ∷ 5 ∷ []) });
}

bounded_within : bounded bufs 3 ≡ ret split_in_second
unfolding bounded
bounded_within = refl

bounded_lem_example : SplitsAt bufs 3 (bounded bufs 3)
bounded_lem_example = bounded_lem bufs 3 (omega arith)

advance_lem_example : Advances split_in_second 2 (advance split_in_second 2)
advance_lem_example = advance_lem split_in_second 2 (omega arith) (omega arith)

after_writing_lem_example : Leaves (drop 5 (flatten bufs)) (after_writing bufs 5)
after_writing_lem_example = after_writing_lem bufs 5 (omega arith) (omega arith)

into_tail_repeats_example :
    (bounded bufs 5 >>= into_tail) ≡ ret ((3 ∷ 4 ∷ 5 ∷ []) ∷ (6 ∷ 7 ∷ []) ∷ [])
into_tail_repeats_example =
    into_tail_repeats ((1 ∷ 2 ∷ []) ∷ []) (3 ∷ 4 ∷ 5 ∷ []) (6 ∷ 7 ∷ []) [] (omega arith)
