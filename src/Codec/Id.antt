-- ===== src/Codec/Id.antt =====
-- `MessageId` of cratetorrent/src/peer/codec.rs: the byte that names a message.
use cratetorrent.Prelude.{
  ℕ, ◌+◌, ◌*◌, ◌≡◌, ◌<◌, Option, none, some, if◌then◌else◌, ◌==◌, ◌↔◌, arith,
}

pub data MessageId : Type 0 where
  choke unchoke interested not_interested have bitfield request block cancel : MessageId

-- `self as u8`.
unfoldable pub id_byte : MessageId → ℕ
id_byte choke = 0
id_byte unchoke = 1
id_byte interested = 2
id_byte not_interested = 3
id_byte have = 4
id_byte bitfield = 5
id_byte request = 6
id_byte block = 7
id_byte cancel = 8

unfoldable pub header_len : MessageId → ℕ
header_len choke = 4 + 1
header_len unchoke = 4 + 1
header_len interested = 4 + 1
header_len not_interested = 4 + 1
header_len have = 4 + 1 + 4
header_len bitfield = 4 + 1
header_len request = 4 + 1 + 3 * 4
header_len block = 4 + 1 + 2 * 4
header_len cancel = 4 + 1 + 3 * 4

-- `MessageId::try_from`; `none` is the error "Unknown message id".
unfoldable pub try_from : ℕ → Option MessageId
try_from k =
    if k == 0
    then some choke
    else if k == 1
    then some unchoke
    else if k == 2
    then some interested
    else if k == 3
    then some not_interested
    else if k == 4
    then some have
    else if k == 5
    then some bitfield
    else if k == 6
    then some request
    else if k == 7
    then some block
    else if k == 8
    then some cancel
    else none

-- A byte names a message exactly if it is that message's own.
try_from_iff : (k : ℕ) (i : MessageId) → (try_from k ≡ some i) ↔ (k ≡ id_byte i)
unfolding try_from id_byte
try_from_iff k i = (λ h. ground arith, λ h. ground arith)

pub try_from_unknown : (k : ℕ) → 8 < k → try_from k ≡ none
unfolding try_from
try_from_unknown k h = ground arith
