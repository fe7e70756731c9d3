-- ===== src/Disk/File/Tests.antt =====
-- Files as functions from offsets, with a system call that writes all that it is given, and one that
-- writes at most two bytes.
use cratetorrent.Prelude.{
  ℕ, ◌+◌, ◌-◌, ◌<◌, ◌≤◌, ◌≡◌, ◌⊎◌, inl, inr, refl, sym, arith, Option, none, some, List, [], ◌∷◌,
  ret, ltb, lt→ltb, le→ltb_false, if◌then◌else◌, length, get_elem?, take, length-take, subst,
}
use cratetorrent.Storage.{FileSlice}
use cratetorrent.IoVecs.{
  IoVec, bounded, as_slice, advance, keep_split_buf, count_whole, trim_first, into_tail,
}
use cratetorrent.IoVecs.Bytes.{flatten}
use cratetorrent.Disk.File.{FileApi, written, write}
use cratetorrent.Disk.File.Write.{MakesProgress, Ends, write_lem}
use cratetorrent.Disk.File.Whole.{WritesFile, Puts, take-all}

-- `bytes` at `offset`, over `f`.
abbrev put : (ℕ → Option ℕ) → List ℕ → ℕ → ℕ → Option ℕ
put f bytes offset j =
    if ltb j offset
    then f j
    else if ltb j (offset + length bytes)
    then get_elem? bytes (j - offset)
    else f j

abbrev pub whole_api : FileApi
whole_api = record {
  File = ℕ → Option ℕ;
  byte_at = λ f i. f i;
  pwritev = λ f bufs offset. some (put f (flatten bufs) offset, length (flatten bufs));
}

abbrev short_api : FileApi
short_api = record {
  File = ℕ → Option ℕ;
  byte_at = λ f i. f i;
  pwritev =
      λ f bufs offset. some (put f (take 2 (flatten bufs)) offset, length (take 2 (flatten bufs)));
}

shift : (offset i : ℕ) → offset + i - offset ≡ i
shift offset i = omega arith

put-Puts :
    (f : ℕ → Option ℕ) (bytes : List ℕ) (offset : ℕ)
    → Puts whole_api f bytes offset (put f bytes offset)
put-Puts f bytes offset = (inside, outside)
  where
    inside : (i : ℕ) → i < length bytes → put f bytes offset (offset + i) ≡ get_elem? bytes i
    inside i h =
        rw (le→ltb_false (offset + i) offset (omega arith)) (
          rw (lt→ltb (offset + i) (offset + length bytes) (omega arith)) (rw (shift offset i) refl))

    outside : (j : ℕ) → (j < offset) ⊎ (offset + length bytes ≤ j) → put f bytes offset j ≡ f j
    outside j (inl h) = rw (lt→ltb j offset h) refl
    outside j (inr h) =
        rw (le→ltb_false j offset (omega arith))
          (rw (le→ltb_false j (offset + length bytes) h) refl)

pub whole_api-WritesFile : WritesFile whole_api
whole_api-WritesFile f f' bufs offset n e =
    let n_eq : length (flatten bufs) ≡ n = cc in
    let f_eq : put f (flatten bufs) offset ≡ f' = cc in
    let all : flatten bufs ≡ take n (flatten bufs) =
      sym (take-all n (flatten bufs) (omega arith)) in
    (
      omega arith,
      subst (λ ys. Puts whole_api f ys offset f') all
          (subst (Puts whole_api f (flatten bufs) offset) f_eq (put-Puts f (flatten bufs) offset)),
    )

short_api-MakesProgress : MakesProgress short_api
short_api-MakesProgress f f' bufs offset n e h =
    let n_eq : length (take 2 (flatten bufs)) ≡ n = cc in
    let l = length-take 2 (flatten bufs) in (omega arith, omega arith)

abbrev blocks : List IoVec
blocks = (1 ∷ 2 ∷ []) ∷ (3 ∷ 4 ∷ 5 ∷ []) ∷ []

abbrev slice : FileSlice
slice = record { offset = 10; len = 4 }

abbrev pub blank : ℕ → Option ℕ
blank i = none

write_lem_example : Ends short_api blocks 4 (write short_api 4 slice blank blocks)
write_lem_example =
    write_lem short_api short_api-MakesProgress 4 slice blank blocks (omega arith) (omega arith)
      (omega arith) (omega arith)

-- With two short writes, the second is at the offset of the first, and overwrites it.
short_writes_overwrite :
    write short_api 4 slice blank blocks
    ≡ ret (written (put (put blank (1 ∷ 2 ∷ []) 10) (3 ∷ 4 ∷ []) 10) ((5 ∷ []) ∷ []))
unfolding write bounded as_slice advance keep_split_buf count_whole trim_first into_tail
short_writes_overwrite = refl
