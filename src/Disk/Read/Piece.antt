-- ===== src/Disk/Read/Piece.antt =====
-- `piece::read`: the blocks that it returns are the piece's bytes, cut into blocks.
use cratetorrent.Prelude.{
  ◌⊎◌, inl, inr, Checked, ℕ, zero, suc, ◌+◌, ◌-◌, ◌*◌, ◌^◌, ◌<◌, ◌≤◌, min, ◌≡◌, refl, ap, subst,
  ◌∙◌, arith, Bool, some, List, [], ◌∷◌, ◌++◌, append-nil, ret, le→leb, lt→ltb, ltb, length, take,
  drop, replicate, get_elem?, length-append, length-replicate,
}
use cratetorrent.Block.{full_block_len, block_count}
use cratetorrent.Block.Partition.{block_len-ret}
use cratetorrent.Download.{debug_assert_ret}
use cratetorrent.Storage.{Range}
use cratetorrent.IoVecs.{IoVec}
use cratetorrent.IoVecs.Bytes.{flatten}
use cratetorrent.Disk.Piece.Complete.{drop-drop}
use cratetorrent.Disk.Read.{
  ReadApi, ReadResult, got, failed, io, Files, new_blocks, cut, read_piece,
}
use cratetorrent.Disk.Read.Loop.{ReadsFile}
use cratetorrent.Disk.Read.Files.{Spans, bytes_of, Interrupts, Interrupts-map, read_files-Fills}

module _ (api : ReadApi) where
  -- The length of a block.
  abbrev pub len_at : ℕ → ℕ → ℕ
  len_at len i = min (len - i * full_block_len) full_block_len

  -- The blocks from index `i` on, as long as they should be.
  abbrev AreSized : ℕ → ℕ → List IoVec → Type 0
  AreSized len i [] = Unit
  AreSized len i (b ∷ bs) = (length b ≡ len_at len i) × AreSized len (suc i) bs

  new_blocks-AreSized :
      (len i n : ℕ)
      → len < 2 ^ 32
      → i + n ≤ block_count len
      → (bs : List IoVec) × (new_blocks api len i n ≡ ret bs) × (length bs ≡ n) × AreSized len i bs
  unfolding new_blocks
  new_blocks-AreSized len i zero w h = ([], refl, refl, tt)
  new_blocks-AreSized len i (suc n) w h =
      let (bs, e, l, sized) = new_blocks-AreSized len (suc i) n w (omega arith) in
      rw (block_len-ret len i w (omega arith)) (
        rw e (
          replicate (len_at len i) 0 ∷ bs,
          refl,
          ap suc l,
          (length-replicate (len_at len i) 0, sized),
        ))

  sized_len :
      (len i : ℕ) (bs : List IoVec)
      → AreSized len i bs
      → length (flatten bs) ≡ min (len - i * full_block_len) (length bs * full_block_len)
  sized_len len i [] h = omega arith
  sized_len len i (b ∷ bs) (h, hs) =
      omega (arith, length-append b (flatten bs), sized_len len (suc i) bs hs)

  sized_all :
      (len : ℕ) (bs : List IoVec)
      → length bs ≡ block_count len
      → AreSized len 0 bs
      → length (flatten bs) ≡ len
  unfolding block_count
  sized_all len bs n sized = omega (arith, sized_len len 0 bs sized)

  -- The block at an index is its part of the bytes.
  cut-at :
      (len : ℕ) (bytes : List ℕ) (i : ℕ) (bs : List IoVec)
      → i + length bs ≤ block_count len
      → AreSized len i bs
      → (k : ℕ) → k < length bs
      → get_elem? (cut api bs (drop (i * full_block_len) bytes)) k
        ≡ some (take (len_at len (i + k)) (drop ((i + k) * full_block_len) bytes))
  unfolding cut block_count
  cut-at len bytes i [] fits h k lt = absurd (omega arith)
  cut-at len bytes i (b ∷ bs) fits (h, hs) zero lt =
      let same : i + 0 ≡ i = omega arith in
      rw same (ap (λ n. some (take n (drop (i * full_block_len) bytes))) h)
  cut-at len bytes i (b ∷ bs) fits (h, hs) (suc k) lt =
      let next : i * full_block_len + length b ≡ suc i * full_block_len = omega arith in
      let same : suc i + k ≡ i + suc k = omega arith in
      rw (drop-drop (length b) (i * full_block_len) bytes)
        (rw next (rw (← same) (cut-at len bytes (suc i) bs (omega arith) hs k (omega arith))))

  length-cut : (bs : List IoVec) (bytes : List ℕ) → length (cut api bs bytes) ≡ length bs
  unfolding cut
  length-cut [] bytes = refl
  length-cut (b ∷ bs) bytes = ap suc (length-cut bs (drop (length b) bytes))

  -- The blocks are the parts of the piece's bytes.
  pub record AreBlocksOf (len : ℕ) (bytes : List ℕ) (blocks : List (List ℕ)) : Type 0 where
    pub count : length blocks ≡ block_count len
    pub block_at :
        (k : ℕ)
        → k < block_count len
        → get_elem? blocks k ≡ some (take (len_at len k) (drop (k * full_block_len) bytes))

  cut-AreBlocksOf :
      (len : ℕ) (bytes : List ℕ) (bs : List IoVec)
      → length bs ≡ block_count len
      → AreSized len 0 bs
      → AreBlocksOf len bytes (cut api bs bytes)
  cut-AreBlocksOf len bytes bs n sized = record {
    count = length-cut bs bytes ∙ n;
    block_at = λ k lt.
        let none_before : 0 * full_block_len ≡ 0 = omega arith in
        let from_first : 0 + k ≡ k = omega arith in
        subst
          (λ j.
            get_elem? (cut api bs bytes) k
            ≡ some (take (len_at len j) (drop (j * full_block_len) bytes)))
          from_first
          (subst
            (λ j.
              get_elem? (cut api bs (drop j bytes)) k
              ≡ some (take (len_at len (0 + k)) (drop ((0 + k) * full_block_len) bytes)))
            none_before (cut-at len bytes 0 bs (omega arith) sized k (omega arith)));
  }

  -- The files of a range.
  abbrev pub files_of : Range → Files api → Files api
  files_of range files = take (range.end - range.start) (drop range.start files)

  -- The piece's blocks were read, or a call on one of its files failed, and so does the read, or was
  -- short.
  abbrev pub ReadsPiece :
      Bool → ℕ → ℕ → ℕ → Files api → Checked (ReadResult (List (List ℕ))) → Type 0
  ReadsPiece dev o offset len fs r =
      ((blocks : List (List ℕ)) × (r ≡ ret (got blocks))
        × AreBlocksOf len (take len (drop (offset - o) (bytes_of api dev fs))) blocks)
      ⊎ Interrupts api dev offset (offset + len) fs (r ≡ ret (failed io))

  -- Where `preadv`, if it does not fail, gives bytes of the file from the offset on and no more than
  -- the buffers take, and the files of the range, each as long as it should be and the first starting
  -- at `o`, are those that have a byte of the piece, which has at least one: `read`, with debug assertions or without, returns
  -- as many blocks as the piece has, and the block at an index is that part of the files' bytes;
  -- unless a call of `preadv` on one of these files, from the piece's first byte in it on and for all
  -- that is left of the piece, fails, and then `read` fails, too, or transfers fewer bytes than the
  -- buffers take and the file has.
  pub read_piece_lem :
      (dev : Bool)
      → ReadsFile api
      → (offset o len : ℕ) (range : Range) (files : Files api) → 0 < len
      → len < 2 ^ 32
      → range.start < range.end
      → range.end ≤ length files
      → Spans api dev o offset len (files_of range files)
      → ReadsPiece dev o offset len
          (files_of range files)
          (read_piece api dev offset range files len)
  unfolding read_piece
  read_piece_lem dev law offset o len range files pos word some_file within spans =
      let (bs, e, n, sized) = new_blocks-AreSized len 0 (block_count len) word (omega arith) in
      let size : length (flatten bs) ≡ len = sized_all len bs n sized in
      let start = spans.after_start in
      let bytes = take len (drop (offset - o) (bytes_of api dev (files_of range files))) in
      rw e (
        rw (le→leb range.start range.end (omega arith)) (
          rw (le→leb range.end (length files) within) (
            rw
              (debug_assert_ret dev (ltb range.start range.end)
                (lt→ltb range.start range.end some_file))
              (elim (read_files-Fills api dev law offset (offset + len) (files_of range files) len o
                offset 0 len [] bs (omega arith) pos word size spans (omega arith) refl) [
                  | inl (bufs', rd, fl) ↦ inl (
                      rw rd (
                        cut api bs (bytes ++ flatten bufs'),
                        refl,
                        rw fl (rw (append-nil bytes) (cut-AreBlocksOf len bytes bs n sized)),
                      ))
                  | inr stops ↦ inr (
                      Interrupts-map api dev offset (offset + len) (files_of range files)
                        (λ rd. rw rd refl) stops)
                ]))))
