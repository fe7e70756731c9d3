-- ===== src/Disk/Reads/Served.antt =====
-- A request for a block of a torrent that is all there is answered with the bytes of the block.
use cratetorrent.Prelude.{
  ◌⊎◌, ℕ, ◌+◌, ◌*◌, ◌/◌, ◌<◌, ◌≡◌, inl, inr, refl, sym, ap, subst, ◌∙◌, arith, Bool, true, false,
  Option, none, some, List, Checked, ret, ◌>>=◌, index, lt→leb_false, lt→ltb, le→leb, length, take,
  drop, if◌then◌else◌,
}
use cratetorrent.Block.{BlockInfo, full_block_len, block_count, index_in_piece}
use cratetorrent.Storage.{StorageInfo, piece_len}
use cratetorrent.Storage.Within.{IsPlaced, place}
use cratetorrent.Disk.Read.{ReadApi, io, Files}
use cratetorrent.Disk.Read.Loop.{ReadsFile}
use cratetorrent.Disk.Read.Files.{bytes_of, Interrupts, Interrupts-map}
use cratetorrent.Disk.Read.Piece.{len_at, AreBlocksOf, files_of}
use cratetorrent.Disk.Reads.{
  CacheApi, Sent, block, read_error, Action, sends, send_fails, spawns, Job, on_hit, on_miss,
  look_up, read_block, read_line,
}
use cratetorrent.Disk.Reads.Bytes.{IsCache, IsSeed, piece_bytes, read_place, take-drop-part}

module _ (c : CacheApi) (api : ReadApi) (dev : Bool) (s : StorageInfo) (files : Files api) where
  open c use {Cache, get, put}

  -- Each piece in the cache is as it is in the files.
  abbrev pub IsCoherent : Cache → Type 0
  IsCoherent cache =
      (i len : ℕ) (blocks : List (List ℕ))
      → piece_len s i ≡ ret len
      → (get cache i).0 ≡ some blocks
      → AreBlocksOf api len (piece_bytes api dev s files i len) blocks

  -- A request for a whole block of a piece.
  pub record IsBlock (info : BlockInfo) : Type 0 where
    pub at : ℕ
    pub len : ℕ
    pub len_ret : piece_len s info.piece_index ≡ ret len
    pub in_torrent : info.piece_index < s.piece_count
    pub in_piece : at < block_count len
    pub offset_at : info.offset ≡ at * full_block_len
    pub len_is : info.len ≡ len_at api len at

  -- The bytes that are asked for.
  abbrev pub asked : BlockInfo → List ℕ
  asked info =
      take info.len (drop (info.piece_index * s.piece_len + info.offset) (bytes_of api dev files))

  -- The thread's answer, and the cache after it.
  abbrev pub Delivers : BlockInfo → Checked (Option Sent × Cache) → Type 0
  Delivers info (ret (some (block b bytes), cache)) =
      (b ≡ info) × (bytes ≡ asked info) × IsCoherent cache
  Delivers info _ = ⊥

  -- A call for the piece's bytes in the files failed, the torrent is told so and the cache is as before,
  -- or was short.
  abbrev pub IsStopped : BlockInfo → Job → Cache → Checked (Option Sent × Cache) → Type 0
  IsStopped info job later r =
      Interrupts api dev (info.piece_index * s.piece_len)
        (info.piece_index * s.piece_len + job.piece_len) (files_of api job.file_range files)
        (r ≡ ret (some (read_error info io), later))

  -- What `read_block` does: it sends the block, or finds that the peer is gone, or starts a thread that
  -- will send the block, whatever was read in the meantime, unless its own read is stopped.
  abbrev pub Serves : Bool → BlockInfo → Checked (Action × Cache) → Type 0
  Serves peer_open info (ret (sends (block b bytes), cache)) =
      (b ≡ info) × (bytes ≡ asked info) × IsCoherent cache
  Serves peer_open info (ret (send_fails, cache)) = (peer_open ≡ false) × IsCoherent cache
  Serves peer_open info (ret (spawns job, cache)) =
      IsCoherent cache
      × (piece_len s info.piece_index ≡ ret job.piece_len)
      × ((later : Cache)
          → IsCoherent later
          → Delivers info (read_line c api dev files job later)
            ⊎ IsStopped info job later (read_line c api dev files job later))
  Serves peer_open info _ = ⊥

  block_found :
      (info : BlockInfo) (r : IsBlock info) (blocks : List (List ℕ))
      → AreBlocksOf api r.len (piece_bytes api dev s files info.piece_index r.len) blocks
      → index blocks r.at ≡ ret (asked info)
  block_found info r blocks are =
      let part =
        take-drop-part (len_at api r.len r.at) (r.at * full_block_len) r.len
          (info.piece_index * s.piece_len) (bytes_of api dev files) (omega arith) in
      rw (are.block_at r.at r.in_piece) (
        ap ret (
          part
          ∙ ap
              (λ k.
                take (len_at api r.len r.at)
                  (drop (info.piece_index * s.piece_len + k) (bytes_of api dev files)))
              (sym r.offset_at)
          ∙ ap
              (λ n.
                take n
                  (drop (info.piece_index * s.piece_len + info.offset) (bytes_of api dev files)))
              (sym r.len_is)))

  index_at : (info : BlockInfo) (r : IsBlock info) → index_in_piece info ≡ ret r.at
  unfolding index_in_piece block_count
  index_at info r =
      let offset_at = r.offset_at in
      let len_is = r.len_is in
      let in_piece = r.in_piece in
      let same : info.offset / full_block_len ≡ r.at = omega arith in
      rw (le→leb info.len full_block_len (omega arith))
        (rw (lt→ltb 0 info.len (omega arith)) (ap ret same))

  on_hit-Serves :
      (peer_open torrent_open : Bool) (info : BlockInfo) (r : IsBlock info) (cache : Cache)
      → IsCoherent cache
      → (blocks : List (List ℕ))
      → AreBlocksOf api r.len (piece_bytes api dev s files info.piece_index r.len) blocks
      → Serves peer_open info
          (on_hit c peer_open torrent_open info r.at blocks >>= λ action. ret (action, cache))
  unfolding on_hit
  on_hit-Serves peer_open torrent_open info r cache coherent blocks are =
      rw (lt→leb_false (length blocks) r.at (omega (arith, are.count, r.in_piece)))
        (rw (block_found info r blocks are) (go peer_open))
    where
      go :
          (open_now : Bool)
          → Serves open_now info
              (ret (if open_now then sends (block info (asked info)) else send_fails, cache))
      go true = (refl, refl, coherent)
      go false = (refl, coherent)

  len_inj : {a b : ℕ} → ◌≡◌ {A = Checked ℕ} (ret a) (ret b) → a ≡ b
  len_inj h = cc

  put-IsCoherent :
      IsCache c
      → (cache : Cache) (i len : ℕ) (line : List (List ℕ)) → IsCoherent cache
      → piece_len s i ≡ ret len
      → AreBlocksOf api len (piece_bytes api dev s files i len) line
      → IsCoherent (put cache i line)
  put-IsCoherent law cache i len line coherent e are j len' blocks f g =
      elim (law.put_holds cache i j g) [
        | inl (at, same) ↦
            let one : len ≡ len' = len_inj (sym e ∙ ap (piece_len s) at ∙ f) in
            subst (λ bs. AreBlocksOf api len' (piece_bytes api dev s files j len') bs) same
              (subst (λ k. AreBlocksOf api len' (piece_bytes api dev s files k len') line) at
                (subst (λ n. AreBlocksOf api n (piece_bytes api dev s files i n) line) one are))
        | inr old ↦ coherent j len' blocks f old
      ]

  get-IsCoherent :
      IsCache c → (cache : Cache) (i : ℕ) → IsCoherent cache → IsCoherent (get cache i).1
  get-IsCoherent law cache i coherent j len blocks e f =
      coherent j len blocks e (law.get_keeps cache i j f)

  -- The thread, whatever the cache holds by then.
  read_line-Delivers :
      IsCache c
      → ReadsFile api
      → IsSeed api dev s files
      → (info : BlockInfo) (r : IsBlock info) (p : IsPlaced s info.piece_index) → p.len ≡ r.len
      → (job : Job)
      → job ≡ record {
        block_info = info;
        block_index = r.at;
        torrent_piece_offset = info.piece_index * s.piece_len;
        file_range = p.range;
        piece_len = p.len;
      }
      → (later : Cache) → IsCoherent later
      → Delivers info (read_line c api dev files job later)
        ⊎ IsStopped info job later (read_line c api dev files job later)
  unfolding read_line
  read_line-Delivers law reads seed info r p same job e later coherent =
      rw e (elim (read_place api dev reads s files info.piece_index seed p) [
        | inl (blocks, rd, are) ↦
            let are' =
              subst (λ n. AreBlocksOf api n (piece_bytes api dev s files info.piece_index n) blocks)
                same are in
            inl (
              rw rd (
                rw (block_found info r blocks are') (
                  refl,
                  refl,
                  put-IsCoherent law later info.piece_index r.len blocks coherent r.len_ret are',
                )))
        | inr stops ↦ inr (
            Interrupts-map api dev (info.piece_index * s.piece_len)
              (info.piece_index * s.piece_len + p.len) (files_of api p.range files)
              (λ rd. rw rd refl) stops)
      ])

  -- Where the crate's cache holds only what was put into it, `preadv`, if it does not fail, gives bytes
  -- of the file from the offset on and no more than the buffers take, all files are there and each
  -- piece in the cache is as it is in the files: asked for a whole block of a piece, `read_block` does
  -- not panic. It sends the peer the bytes of the torrent at the block's place, or fails since the peer
  -- is gone, or starts a thread. Whatever pieces are put into the cache before the thread runs, it
  -- sends these bytes, unless one of its calls of `preadv` for the piece's bytes fails, when it sends
  -- the torrent the error and leaves the cache, or transfers fewer bytes than the buffers take and the
  -- file has. Each piece in the cache is as it is in the files after a read that is not stopped, too.
  pub read_block_lem :
      IsCache c
      → ReadsFile api
      → IsSeed api dev s files
      → (peer_open torrent_open : Bool) (info : BlockInfo) (cache : Cache) → IsCoherent cache
      → IsBlock info
      → Serves peer_open info (read_block c peer_open torrent_open s info cache)
  unfolding read_block
  read_block_lem law reads seed peer_open torrent_open info cache coherent r =
      let p = place s info.piece_index seed.valid r.in_torrent in
      rw (index_at info r) (go p (get cache info.piece_index) refl)
    where
      go :
          (p : IsPlaced s info.piece_index) (found : Option (List (List ℕ)) × Cache)
          → get cache info.piece_index ≡ found
          → Serves peer_open info (
              look_up c peer_open torrent_open s info r.at found.0 >>= λ action.
              ret (action, found.1))
      go p (some blocks, cache') e =
          on_hit-Serves peer_open torrent_open info r cache'
            (subst IsCoherent (ap (λ x. x.1) e)
              (get-IsCoherent law cache info.piece_index coherent))
            blocks (coherent info.piece_index r.len blocks r.len_ret (ap (λ x. x.0) e))
      go p (none, cache') e =
          unfold on_miss in
          let same : p.len ≡ r.len = len_inj (sym p.len_ret ∙ r.len_ret) in
          rw p.range_ret (
            rw p.offset_ret (
              rw p.len_ret (
                subst IsCoherent (ap (λ x. x.1) e)
                    (get-IsCoherent law cache info.piece_index coherent),
                p.len_ret,
                λ later fresh. read_line-Delivers law reads seed info r p same _ refl later fresh,
              )))
