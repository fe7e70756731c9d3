-- ===== src/Peer/Valid.antt =====
-- Which blocks of a peer's messages are accepted.
use cratetorrent.Prelude.{
  ℕ, ◌+◌, ◌-◌, ◌==◌, ◌^◌, ◌<◌, ◌≤◌, ◌≡◌, refl, sym, ◌∙◌, arith, inl, inr, Option, none, some,
  Checked, ret, panic, Bool-cases, ltb, leb, ltb→lt, lt→ltb, ltb_false→le, leb→le, le→leb,
  if◌then◌else◌,
}
use cratetorrent.Block.{BlockInfo}
use cratetorrent.Storage.{StorageInfo, piece_len}
use cratetorrent.Peer.{
  PeerError, invalid_block_info, invalid_piece_index, validate_in_piece, validate_block_info,
}

-- The block has a byte, and lies within a piece of the torrent.
pub record IsBlockOf (storage : StorageInfo) (b : BlockInfo) : Type 0 where
  pub in_range : b.piece_index < storage.piece_count
  pub some_byte : 0 < b.len
  pub its_piece_len : ℕ
  pub is_piece_len : piece_len storage b.piece_index ≡ ret its_piece_len
  pub inside : b.offset + b.len ≤ its_piece_len

-- What the validation may find.
abbrev pub Validates : StorageInfo → BlockInfo → Checked (Option PeerError) → Type 0
Validates storage b panic = (b.piece_index < storage.piece_count) × (2 ^ 32 ≤ b.offset + b.len)
Validates storage b (ret none) = IsBlockOf storage b
Validates storage b (ret (some invalid_piece_index)) = storage.piece_count ≤ b.piece_index
Validates storage b (ret (some invalid_block_info)) =
    (b.piece_index < storage.piece_count) × (IsBlockOf storage b → ⊥)
Validates storage b (ret (some _)) = ⊥

-- `piece_len` of an index in range.
pub piece_len-ret :
    (storage : StorageInfo) (i : ℕ)
    → i < storage.piece_count
    → (len : ℕ) × (piece_len storage i ≡ ret len)
unfolding piece_len
piece_len-ret storage i h =
    let last : 1 ≤ storage.piece_count = omega arith in
    (
      if i == (storage.piece_count - 1) then storage.last_piece_len else storage.piece_len,
      rw (lt→ltb i storage.piece_count h) (rw (le→leb 1 storage.piece_count last) refl),
    )

len_inj : {a b : ℕ} → ◌≡◌ {A = Checked ℕ} (ret a) (ret b) → a ≡ b
len_inj e = cc

-- On any storage, the validation of a block panics only if the sum of its offset and length exceeds 32
-- bits. It accepts exactly the blocks that have a byte and lie within a piece, and otherwise reports a
-- piece index that is out of range, or else an invalid block.
pub validate_block_info_lem :
    (storage : StorageInfo) (b : BlockInfo) → Validates storage b (validate_block_info storage b)
unfolding validate_block_info validate_in_piece
validate_block_info_lem storage b = elim (Bool-cases (ltb b.piece_index storage.piece_count)) [
  | inl i ↦
      let lt = ltb→lt b.piece_index storage.piece_count i in
      let (len, e) = piece_len-ret storage b.piece_index lt in
      rw i (
        rw e (elim (Bool-cases (ltb 0 b.len)) [
          | inl p ↦ rw p (elim (Bool-cases (ltb (b.offset + b.len) (2 ^ 32))) [
            | inl f ↦ rw f (elim (Bool-cases (leb (b.offset + b.len) len)) [
              | inl g ↦ rw g record {
                in_range = lt;
                some_byte = ltb→lt 0 b.len p;
                its_piece_len = len;
                is_piece_len = e;
                inside = leb→le (b.offset + b.len) len g;
              }
              | inr g ↦ rw g (
                lt,
                λ v.
                    let same = len_inj (sym e ∙ v.is_piece_len) in
                    let inside = v.inside in ground arith,
              )
            ])
            | inr f ↦ rw f (lt, ltb_false→le (b.offset + b.len) (2 ^ 32) f)
          ])
          | inr p ↦ rw p (lt, λ v. let some_byte = v.some_byte in ground arith)
        ]))
  | inr i ↦ rw i (ltb_false→le b.piece_index storage.piece_count i)
]
