-- ===== src/Disk/Torrent/Buffer.antt =====
-- The write buffer of a torrent over the blocks of its content.
use cratetorrent.Prelude.{
  ℕ, ◌+◌, ◌*◌, ◌^◌, ◌<◌, ◌≤◌, ◌≡◌, refl, subst, arith, inl, inr, false, Option, none, some, List,
  [], ◌∷◌, Checked, ret, panic, ◌>>=◌, All, Bool-cases, ◌==◌, if◌then◌else◌, length, take, drop,
  lt→ltb, le→leb,
}
use cratetorrent.Block.{full_block_len, block_count}
use cratetorrent.Storage.{Range, piece_len, files_intersecting_piece}
use cratetorrent.Storage.Pieces as Pieces
use cratetorrent.Storage.Pieces.{PieceFiles, files_intersecting_piece_lem}
use cratetorrent.Codec.Handshake.{bytes_eq}
use cratetorrent.Disk.Piece.{Piece, enqueue_block, is_complete, buffered, matches_hash}
use cratetorrent.Disk.Piece.Complete.{
  block_bytes, Buffers, enqueue_block-Buffers, matches_hash-Buffers,
}
use cratetorrent.Disk.Torrent.{
  Entry, WriteBuf, find, put, remove, Torrent, new_entry, started, write_block,
}

-- The expected hash of a piece.
abbrev pub hash_at : List ℕ → ℕ → List ℕ
hash_at hashes i = take 20 (drop (i * 20) hashes)

-- The buffer holds pieces in progress, with blocks of the torrent's content alone.
abbrev pub AreEntries : (ℕ → List ℕ) → List ℕ → WriteBuf → Type 0
AreEntries content hashes =
    All
      (λ e. Buffers (content (e.0)) (hash_at hashes (e.0)) (e.1.0) × (is_complete (e.1.0) ≡ false))

pub record IsTorrentOf (content : ℕ → List ℕ) (t : Torrent) : Type 0 where
  pub storage : Pieces.IsValid t.info
  pub all_hashes : t.info.piece_count * 20 ≤ length t.piece_hashes
  pub word : t.info.piece_count * 20 < 2 ^ 64
  pub sized : (i : ℕ) → i < t.info.piece_count → piece_len t.info i ≡ ret (length (content i))
  pub entries : AreEntries content t.piece_hashes t.write_buf

find-Buffers :
    (content : ℕ → List ℕ) (hashes : List ℕ) (buf : WriteBuf) (i : ℕ) (e : Entry)
    → AreEntries content hashes buf
    → find buf i ≡ some e
    → Buffers (content i) (hash_at hashes i) (e.0)
find-Buffers content hashes [] i e h f = cc
find-Buffers content hashes ((j, d) ∷ buf) i e ((v, n), h) f = elim (Bool-cases (j == i)) [
  | inl t ↦
      let j≡i : j ≡ i = ground arith in
      let same : d ≡ e = ground arith in
      subst (λ k. Buffers (content k) (hash_at hashes k) (e.0)) j≡i
        (subst (λ x. Buffers (content j) (hash_at hashes j) (x.0)) same v)
  | inr n' ↦ find-Buffers content hashes buf i e h (ground arith)
]

put-AreEntries :
    (content : ℕ → List ℕ) (hashes : List ℕ) (buf : WriteBuf) (i : ℕ) (e : Entry)
    → AreEntries content hashes buf
    → Buffers (content i) (hash_at hashes i) (e.0)
    → is_complete (e.0) ≡ false
    → AreEntries content hashes (put buf i e)
put-AreEntries content hashes [] i e h b n = ((b, n), tt)
put-AreEntries content hashes ((j, d) ∷ buf) i e (v, h) b n = elim (Bool-cases (j == i)) [
  | inl t ↦ rw t ((b, n), h)
  | inr f ↦ rw f (v, put-AreEntries content hashes buf i e h b n)
]

remove-AreEntries :
    (content : ℕ → List ℕ) (hashes : List ℕ) (buf : WriteBuf) (i : ℕ)
    → AreEntries content hashes buf
    → AreEntries content hashes (remove buf i)
remove-AreEntries content hashes [] i h = tt
remove-AreEntries content hashes ((j, d) ∷ buf) i (v, h) = elim (Bool-cases (j == i)) [
  | inl t ↦ rw t h
  | inr f ↦ rw f (v, remove-AreEntries content hashes buf i h)
]

-- What starting a piece may return.
abbrev Starts : List ℕ → List ℕ → Checked Entry → Type 0
Starts content hash panic = ⊥
Starts content hash (ret e) = Buffers content hash (e.0)

new_entry-Starts :
    (content : ℕ → List ℕ) (t : Torrent) (i : ℕ)
    → IsTorrentOf content t
    → i < t.info.piece_count
    → Starts (content i) (hash_at t.piece_hashes i) (new_entry t i)
unfolding new_entry
new_entry-Starts content t i v h =
    let all_hashes = v.all_hashes in
    let word = v.word in
    let e1 = lt→ltb i t.info.piece_count h in
    let e2 = lt→ltb (i * 20) (2 ^ 64) (omega arith) in
    let e3 = lt→ltb (i * 20 + 20) (2 ^ 64) (omega arith) in
    let e4 = le→leb (i * 20 + 20) (length t.piece_hashes) (omega arith) in
    rw e1 (
      rw e2 (
        rw e3 (
          rw e4 (
            rw (v.sized i h) (
              go (files_intersecting_piece t.info i) (
                subst (λ l. PieceFiles t.info i l (files_intersecting_piece t.info i)) (v.sized i h)
                  (files_intersecting_piece_lem t.info i v.storage h)))))))
  where
    go :
        (r : Checked Range)
        → PieceFiles t.info i (ret (length (content i))) r
        → Starts (content i) (hash_at t.piece_hashes i) (
            r >>= λ file_range. ret (
              record {
                expected_hash = hash_at t.piece_hashes i;
                len = length (content i);
                blocks = [];
              },
              file_range,
            ))
    go panic k = k
    go (ret range) k = record { same_len = refl; same_hash = refl; are_blocks = tt }

-- What `write_block` may return for a block of piece `i`.
abbrev pub Writes :
    (List ℕ → List ℕ) → (ℕ → List ℕ) → List ℕ → ℕ → Checked (Torrent × Option Entry) → Type 0
Writes sha1 content hashes i panic = ⊥
Writes sha1 content hashes i (ret (t', none)) = IsTorrentOf content t'
Writes sha1 content hashes i (ret (t', some (p, files))) =
    IsTorrentOf content t'
    × (buffered p.blocks ≡ content i)
    × (matches_hash sha1 p ≡ ret (bytes_eq (sha1 (content i)) (hash_at hashes i)))

-- For a torrent with valid storage and a hash for each piece, whose buffer holds blocks of its content
-- alone, `write_block` does not panic on a block of the content, whichever and however often it
-- arrives. The buffer then still holds pieces in progress alone, with blocks of the content. A piece is
-- handed to the worker thread only with all of its bytes in order, and its hash check, which does not
-- panic, compares the hash of these bytes with the piece's part of the concatenated hashes.
pub write_block_lem :
    (sha1 : List ℕ → List ℕ) (content : ℕ → List ℕ) (t : Torrent) (i j len : ℕ)
    → IsTorrentOf content t
    → i < t.info.piece_count
    → j < block_count (length (content i))
    → Writes sha1 content t.piece_hashes i (
        write_block t
          (record { piece_index = i; offset = j * full_block_len; len = len })
          (block_bytes (content i) j))
unfolding write_block
write_block_lem sha1 content t i j len v h k =
    go (started t i (find t.write_buf i)) (begins (find t.write_buf i) refl)
  where
    begins :
        (o : Option Entry)
        → find t.write_buf i ≡ o
        → Starts (content i) (hash_at t.piece_hashes i) (started t i o)
    begins none e = new_entry-Starts content t i v h
    begins (some d) e = find-Buffers content t.piece_hashes t.write_buf i d v.entries e

    with_buf :
        (buf : WriteBuf)
        → AreEntries content t.piece_hashes buf
        → IsTorrentOf content (record t { write_buf = buf })
    with_buf buf b = record {
      storage = v.storage;
      all_hashes = v.all_hashes;
      word = v.word;
      sized = v.sized;
      entries = b;
    }

    next :
        (p : Piece) (files : Range)
        → Buffers (content i) (hash_at t.piece_hashes i) p
        → Writes sha1 content t.piece_hashes i (
            ret (
              if is_complete p
              then (record t { write_buf = remove t.write_buf i }, some (p, files))
              else (record t { write_buf = put t.write_buf i (p, files) }, none)))
    next p files b = elim (Bool-cases (is_complete p)) [
      | inl c ↦
          let (bytes, checked) =
            matches_hash-Buffers sha1 (content i) (hash_at t.piece_hashes i) p b c in
          rw c (
            with_buf _ (remove-AreEntries content t.piece_hashes t.write_buf i v.entries),
            bytes,
            checked,
          )
      | inr c ↦ rw c (
          with_buf _ (put-AreEntries content t.piece_hashes t.write_buf i (p, files) v.entries b c))
    ]

    go :
        (r : Checked Entry)
        → Starts (content i) (hash_at t.piece_hashes i) r
        → Writes sha1 content t.piece_hashes i (
            r >>= λ e.
            let p' = enqueue_block (e.0) (j * full_block_len) (block_bytes (content i) j) in
            ret (
              if is_complete p'
              then (record t { write_buf = remove t.write_buf i }, some (p', e.1))
              else (record t { write_buf = put t.write_buf i (p', e.1) }, none)))
    go panic b = b
    go (ret (p, files)) b =
        next (enqueue_block p (j * full_block_len) (block_bytes (content i) j)) files
          (enqueue_block-Buffers (content i) (hash_at t.piece_hashes i) p j b k)
