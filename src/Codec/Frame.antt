-- ===== src/Codec/Frame.antt =====
-- The bytes of a message, described without a buffer, and that `encode` appends exactly those.
use cratetorrent.Prelude.{
  ℕ, ◌+◌, ◌%◌, ◌^◌, ◌<◌, ◌≡◌, List, [], ◌∷◌, ◌++◌, append_assoc, append-nil, ret, arith, lt→ltb,
  length,
}
use cratetorrent.Block.{BlockInfo}
use cratetorrent.Codec.{
  Message, keep_alive, bitfield, choke, unchoke, interested, not_interested, have, request, block,
  cancel, encode,
}
use cratetorrent.Codec.Wire.{WireApi, ok}

-- The integers of the block fit in 32 bits.
abbrev pub InfoFits : BlockInfo → Type 0
InfoFits b = (b.piece_index < 2 ^ 32) × (b.offset < 2 ^ 32) × (b.len < 2 ^ 32)

module _ (w : WireApi) where
  open w use {Bitfield, as_slice, from_vec, be_u32}

  -- The integers of a message, its length prefix included, fit in 32 bits, and a block has a byte.
  abbrev pub Fits : Message Bitfield → Type 0
  Fits (bitfield b) = 1 + length (as_slice b) < 2 ^ 32
  Fits (have i) = i < 2 ^ 32
  Fits (request b) = InfoFits b
  Fits (cancel b) = InfoFits b
  Fits (block i offset bytes) =
      (i < 2 ^ 32) × (offset < 2 ^ 32) × (0 < length bytes) × (9 + length bytes < 2 ^ 32)
  Fits _ = Unit

  abbrev pub info_bytes : BlockInfo → List ℕ
  info_bytes b = be_u32 b.piece_index ++ (be_u32 b.offset ++ be_u32 b.len)

  -- The length prefix of a message, and what follows it.
  abbrev pub prefix : Message Bitfield → ℕ
  prefix keep_alive = 0
  prefix (bitfield b) = 1 + length (as_slice b)
  prefix (have i) = 5
  prefix (request b) = 13
  prefix (cancel b) = 13
  prefix (block i offset bytes) = 9 + length bytes
  prefix _ = 1

  abbrev pub body : Message Bitfield → List ℕ
  body keep_alive = []
  body choke = 0 ∷ []
  body unchoke = 1 ∷ []
  body interested = 2 ∷ []
  body not_interested = 3 ∷ []
  body (have i) = 4 ∷ be_u32 i
  body (bitfield b) = 5 ∷ as_slice b
  body (request b) = 6 ∷ info_bytes b
  body (block i offset bytes) = 7 ∷ (be_u32 i ++ (be_u32 offset ++ bytes))
  body (cancel b) = 8 ∷ info_bytes b

  -- The bytes of a message on the wire.
  abbrev pub frame : Message Bitfield → List ℕ
  frame m = be_u32 (prefix m) ++ body m

  -- `encode` appends the message's bytes to the buffer and leaves what was there.
  pub encode_lem :
      (m : Message Bitfield) (buf : List ℕ) → Fits m → encode w m buf ≡ ret (buf ++ frame m, ok tt)
  unfolding encode
  encode_lem keep_alive buf h = rw append-nil
  encode_lem choke buf h = simp append_assoc
  encode_lem unchoke buf h = simp append_assoc
  encode_lem interested buf h = simp append_assoc
  encode_lem not_interested buf h = simp append_assoc
  encode_lem (bitfield b) buf h =
      let small : (1 + length (as_slice b)) % 2 ^ 32 ≡ 1 + length (as_slice b) = omega arith in
      rw small (simp append_assoc)
  encode_lem (have i) buf h = rw (lt→ltb i (2 ^ 32) h) (simp append_assoc)
  encode_lem (request b) buf h = rw (lt→ltb b.piece_index (2 ^ 32) h.0) (simp append_assoc)
  encode_lem (cancel b) buf h = rw (lt→ltb b.piece_index (2 ^ 32) h.0) (simp append_assoc)
  encode_lem (block i offset bytes) buf (hi, ho, hp, hl) =
      let small : length bytes % 2 ^ 32 ≡ length bytes = omega arith in
      rw small
        (rw (lt→ltb (9 + length bytes) (2 ^ 32) hl) (rw (lt→ltb i (2 ^ 32) hi) (simp append_assoc)))
