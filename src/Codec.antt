-- ===== src/Codec.antt =====
-- cratetorrent/src/peer/codec.rs: the wire format of peer messages. A buffer is the list of its
-- unread bytes.
pub mod Id
pub mod Wire
pub mod Frame
pub mod RoundTrip
pub mod Malformed
pub mod Handshake
mod Tests
use cratetorrent.Prelude.{
  ℕ, ◌+◌, ◌-◌, ◌^◌, ◌%◌, Bool, true, Option, none, some, List, [], ◌∷◌, ◌++◌, Checked, ret, panic,
  ◌>>=◌, ◌>>◌, assert, expect, add_bits, sub_checked, ltb, leb, ◌==◌, if◌then◌else◌, length, take,
  drop,
}
use cratetorrent.Block.{BlockInfo}
use Id.{MessageId, id_byte, try_from, header_len}
use Wire.{WireApi, copy_to_slice, IoResult, ok, err, ErrorKind, invalid_input}

-- The messages; a bitfield is of the third-party type `B`.
pub data Message (B : Type 0) : Type 0 where
  keep_alive : Message B
  bitfield : B → Message B
  choke unchoke interested not_interested : Message B
  have : ℕ → Message B
  request : BlockInfo → Message B
  block : ℕ → ℕ → List ℕ → Message B
  cancel : BlockInfo → Message B

-- `Message::id` and `protocol_len`.
unfoldable pub id : {B : Type 0} → Message B → Option MessageId
id keep_alive = none
id (bitfield b) = some MessageId.bitfield
id choke = some MessageId.choke
id unchoke = some MessageId.unchoke
id interested = some MessageId.interested
id not_interested = some MessageId.not_interested
id (have i) = some MessageId.have
id (request b) = some MessageId.request
id (block i o d) = some MessageId.block
id (cancel b) = some MessageId.cancel

abbrev pub header_len_or : ℕ → Option MessageId → ℕ
header_len_or n none = n
header_len_or n (some i) = header_len i

unfoldable pub protocol_len : {B : Type 0} → Message B → ℕ
unfolding id header_len
protocol_len m = header_len_or 1 (id m)

module _ (w : WireApi) where
  open w use {Bitfield, as_slice, from_vec, be_u32, of_be_u32}

  abbrev pub put_u32 : List ℕ → ℕ → List ℕ
  put_u32 buf x = buf ++ be_u32 x

  abbrev pub put_u8 : List ℕ → ℕ → List ℕ
  put_u8 buf x = buf ++ (x ∷ [])

  -- A message with nothing but its id.
  abbrev pub put_id : List ℕ → ℕ → MessageId → List ℕ
  put_id buf msg_len i = put_u8 (put_u32 buf msg_len) (id_byte i)

  -- `usize` to `u32` by `try_into`, put into the buffer.
  abbrev pub put_index :
      List ℕ
      → ℕ
      → (List ℕ → Checked (List ℕ × IoResult (Unit {0})))
      → Checked (List ℕ × IoResult (Unit {0}))
  put_index buf piece_index rest =
      if ltb piece_index (2 ^ 32)
      then rest (put_u32 buf piece_index)
      else ret (buf, err invalid_input)

  -- `BlockInfo::encode`.
  unfoldable pub encode_info : List ℕ → BlockInfo → Checked (List ℕ × IoResult (Unit {0}))
  encode_info buf b =
      put_index buf b.piece_index (λ buf'. ret (put_u32 (put_u32 buf' b.offset) b.len, ok tt))

  -- `PeerCodec::encode`: the buffer after the call, and its result.
  unfoldable pub encode : Message Bitfield → List ℕ → Checked (List ℕ × IoResult (Unit {0}))
  unfolding encode_info id_byte
  encode keep_alive buf = ret (put_u32 buf 0, ok tt)
  encode (bitfield b) buf =
      ret (put_id buf ((1 + length (as_slice b)) % 2 ^ 32) MessageId.bitfield ++ as_slice b, ok tt)
  encode choke buf = ret (put_id buf 1 MessageId.choke, ok tt)
  encode unchoke buf = ret (put_id buf 1 MessageId.unchoke, ok tt)
  encode interested buf = ret (put_id buf 1 MessageId.interested, ok tt)
  encode not_interested buf = ret (put_id buf 1 MessageId.not_interested, ok tt)
  encode (have i) buf = put_index (put_id buf (1 + 4) MessageId.have) i (λ buf'. ret (buf', ok tt))
  encode (request b) buf = encode_info (put_id buf (1 + 4 + 4 + 4) MessageId.request) b
  encode (block i offset bytes) buf = do
    msg_len ← add_bits 32 (1 + 4 + 4) (length bytes % 2 ^ 32)
    put_index (put_id buf msg_len MessageId.block) i
        (λ buf'. ret (put_u32 buf' offset ++ bytes, ok tt))
  encode (cancel b) buf = encode_info (put_id buf (1 + 4 + 4 + 4) MessageId.cancel) b

  -- `Buf::get_u32`, which panics if there are fewer than four bytes.
  unfoldable pub get_u32 : List ℕ → Checked (ℕ × List ℕ)
  get_u32 (a ∷ b ∷ c ∷ d ∷ buf) = ret (of_be_u32 a b c d, buf)
  get_u32 _ = panic

  -- Three integers of a request or a cancel.
  unfoldable pub decode_info : List ℕ → Checked (BlockInfo × List ℕ)
  unfolding get_u32
  decode_info buf = do
    (piece_index, buf1) ← get_u32 buf
    (offset, buf2) ← get_u32 buf1
    (len, buf3) ← get_u32 buf2
    ret (record { piece_index = piece_index; offset = offset; len = len }, buf3)

  abbrev pub Decoded : Type 0
  Decoded = List ℕ × IoResult (Option (Message Bitfield))

  abbrev pub got : List ℕ → Message Bitfield → Checked Decoded
  got buf m = ret (buf, ok (some m))

  -- What follows the message id. `u32` to `usize` always succeeds.
  unfoldable pub decode_payload : MessageId → ℕ → List ℕ → Checked Decoded
  unfolding get_u32 decode_info
  decode_payload MessageId.choke msg_len buf = got buf choke
  decode_payload MessageId.unchoke msg_len buf = got buf unchoke
  decode_payload MessageId.interested msg_len buf = got buf interested
  decode_payload MessageId.not_interested msg_len buf = got buf not_interested
  decode_payload MessageId.have msg_len buf = do
    (piece_index, buf') ← get_u32 buf
    got buf' (have piece_index)
  decode_payload MessageId.bitfield msg_len buf = do
    n ← sub_checked msg_len 1
    (bytes, buf') ← copy_to_slice n buf
    got buf' (bitfield (from_vec bytes))
  decode_payload MessageId.request msg_len buf = do
    (b, buf') ← decode_info buf
    got buf' (request b)
  decode_payload MessageId.block msg_len buf = do
    assert (ltb 9 msg_len)
    (piece_index, buf1) ← get_u32 buf
    (offset, buf2) ← get_u32 buf1
    n ← sub_checked msg_len 9
    (bytes, buf3) ← copy_to_slice n buf2
    got buf3 (block piece_index offset bytes)
  decode_payload MessageId.cancel msg_len buf = do (b, buf') ← decode_info buf; got buf' (cancel b)

  -- An unknown id is an error.
  abbrev pub decode_id : ℕ → List ℕ → Option MessageId → Checked Decoded
  decode_id msg_len buf none = ret (buf, err invalid_input)
  decode_id msg_len buf (some i) = decode_payload i msg_len buf

  -- From the message id on, which `get_u8` consumes.
  unfoldable pub decode_body : ℕ → List ℕ → Checked Decoded
  decode_body msg_len [] = panic
  decode_body msg_len (k ∷ buf) = decode_id msg_len buf (try_from k)

  -- With the four bytes of the length read but not consumed.
  unfoldable pub decode_len : List ℕ → ℕ → List ℕ → Checked Decoded
  unfolding decode_body
  decode_len buf msg_len after =
      if leb (4 + msg_len) (length buf)
      then if msg_len == 0 then got after keep_alive else decode_body msg_len after
      else ret (buf, ok none)

  -- `PeerCodec::decode`: the buffer after the call, and its result.
  unfoldable pub decode : List ℕ → Checked Decoded
  unfolding decode_len
  decode (a ∷ b ∷ c ∷ d ∷ after) = decode_len (a ∷ b ∷ c ∷ d ∷ after) (of_be_u32 a b c d) after
  decode buf = ret (buf, ok none)
