-- ===== src/Codec/Handshake.antt =====
-- `Handshake` and `HandshakeCodec` of cratetorrent/src/peer/codec.rs: the first message of a session.
-- The byte arrays are lists, whose lengths `IsSized` fixes.
pub mod Decode
mod Tests
use cratetorrent.Prelude.{
  ℕ, ◌+◌, ◌≡◌, Bool, true, false, ◌&&◌, Option, none, some, List, [], ◌∷◌, ◌++◌, Checked, ret,
  panic, ◌>>=◌, ◌>>◌, assert, ltb, ◌==◌, if◌then◌else◌, length, replicate,
}
use cratetorrent.Codec.Wire.{copy_to_slice, IoResult, ok, err, invalid_input}

pub record Handshake : Type 0 where
  pub prot : List ℕ
  pub reserved : List ℕ
  pub info_hash : List ℕ
  pub peer_id : List ℕ

-- "BitTorrent protocol".
abbrev pub protocol_string : List ℕ
protocol_string =
    66 ∷ 105 ∷ 116 ∷ 84 ∷ 111 ∷ 114 ∷ 114 ∷ 101 ∷ 110 ∷ 116 ∷ 32 ∷ 112 ∷ 114 ∷ 111 ∷ 116 ∷ 111 ∷ 99
    ∷ 111 ∷ 108 ∷ []

unfoldable pub new : List ℕ → List ℕ → Handshake
new info_hash peer_id = record {
  prot = protocol_string;
  reserved = replicate 8 0;
  info_hash = info_hash;
  peer_id = peer_id;
}

-- `Handshake::len`.
unfoldable pub len : Handshake → ℕ
len h = 19 + 8 + 20 + 20

-- Equality of byte strings.
unfoldable pub bytes_eq : List ℕ → List ℕ → Bool
bytes_eq [] [] = true
bytes_eq [] (y ∷ ys) = false
bytes_eq (x ∷ xs) [] = false
bytes_eq (x ∷ xs) (y ∷ ys) = x == y && bytes_eq xs ys

-- `HandshakeCodec::encode`: the buffer after the call.
unfoldable pub encode : Handshake → List ℕ → Checked (List ℕ × IoResult (Unit {0}))
encode h buf = do
  assert (length h.prot == 19)
  assert (bytes_eq h.prot protocol_string)
  ret (
    (((((buf ++ (length h.prot ∷ [])) ++ h.prot) ++ h.reserved) ++ h.info_hash) ++ h.peer_id),
    ok tt,
  )

abbrev pub Decoded : Type 0
Decoded = List ℕ × IoResult (Option Handshake)

-- The four fields, once the whole message is there.
unfoldable pub decode_fields : List ℕ → Checked Decoded
decode_fields buf = do
  (prot, buf1) ← copy_to_slice 19 buf
  (reserved, buf2) ← copy_to_slice 8 buf1
  (info_hash, buf3) ← copy_to_slice 20 buf2
  (peer_id, buf4) ← copy_to_slice 20 buf3
  ret (
    buf4,
    ok (
        some
          (record { prot = prot; reserved = reserved; info_hash = info_hash; peer_id = peer_id })),
  )

-- `HandshakeCodec::decode`: the buffer after the call, and its result.
unfoldable pub decode : List ℕ → Checked Decoded
decode [] = ret ([], ok none)
decode (prot_len ∷ after) =
    let fields = decode_fields after in
    if prot_len == length protocol_string
    then if ltb (prot_len + 8 + 20 + 20) (length (prot_len ∷ after))
      then fields
      else ret (prot_len ∷ after, ok none)
    else ret (prot_len ∷ after, err invalid_input)
