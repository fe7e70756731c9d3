-- ===== src/Peer/Announced.antt =====
-- What the peer announces keeps the invariant of a session.
use cratetorrent.Prelude.{
  ℕ, zero, suc, ◌+◌, ◌-◌, ◌≡◌, refl, sym, ap, subst, ◌∙◌, arith, inl, inr, Bool, true, false, not,
  ◌&&◌, Option, none, some, List, [], ◌∷◌, ◌++◌, Checked, ret, panic, IfReturns, IfReturns-after,
  All, Bool-cases, ltb, add_bits, if◌then◌else◌, length, set, length-set, length-append,
  length-replicate, length-take, ◌^◌, take, replicate, get_elem?,
}
use cratetorrent.Prelude as Prelude
use cratetorrent.Download.{debug_assert}
use cratetorrent.PiecePicker.{PiecePicker, register_peer_pieces, register_peer_piece}
use cratetorrent.PiecePicker.Kept.{
  StaysValid, index-found, register_peer_pieces-StaysValid, register_peer_piece-StaysValid,
}
use cratetorrent.Counter.{FloatApi}
use cratetorrent.Codec.{Message}
use cratetorrent.Codec.Id.{MessageId, header_len}
use cratetorrent.Session.{update_state}
use cratetorrent.Peer.{validate_piece_index, Torrent, PeerSession, to_peer, io}
use cratetorrent.Peer.Pipeline.{count_protocol_up}
use cratetorrent.Peer.Effects.{pure}
use cratetorrent.Peer.Messages.{
  count_ones, resize, is_availability_exchange, update_interest, handle_bitfield_msg,
  handle_new_piece, handle_have_msg,
}
use cratetorrent.Peer.Orderly.{IsKept, IsSound-log, IsSound-pieces}
use cratetorrent.Peer.Rules.{
  Keeps, Runs-checked, IsKept-ctx, Runs-with_ctx, Keeps-send, count_protocol_up-KeepsState,
}

module _ ⦃api : FloatApi⦄ (t : Torrent) where
  -- Our interest after it is sent, or taken back.
  IsKept-eager :
      (s : PeerSession)
      → IsKept t.storage s
      → IsKept t.storage (record s {
        ctx = update_state s.ctx (λ state. record state { is_interested = true });
        log = to_peer Message.interested ∷ s.log;
      })
  unfolding update_state
  IsKept-eager s v =
      let w = IsSound-log t.storage s (to_peer Message.interested) tt v.sound in
      record {
        sound = record {
          orderly = w.orderly;
          pending = w.pending;
          asked = w.asked;
          unchoked = w.unchoked;
          interested = λ e. inl refl;
          idle = w.idle;
          shared = w.shared;
          counted = w.counted;
          sized = w.sized;
        };
        agreed = v.agreed;
      }

  IsKept-bored :
      (s : PeerSession)
      → IsKept t.storage s
      → IsKept t.storage
          (record s { ctx = update_state s.ctx (λ state. record state { is_interested = false }) })
  unfolding update_state
  IsKept-bored s v = record {
    sound = record {
      orderly = v.sound.orderly;
      pending = v.sound.pending;
      asked = v.sound.asked;
      unchoked = v.sound.unchoked;
      interested = λ e. cc;
      idle = v.sound.idle;
      shared = v.sound.shared;
      counted = v.sound.counted;
      sized = v.sound.sized;
    };
    agreed = v.agreed;
  }

  update_interest-Keeps :
      (i : Bool) (s : PeerSession) → IsKept t.storage s → Keeps t.storage (update_interest t i s)
  unfolding update_interest
  update_interest-Keeps false s v = elim (Bool-cases s.ctx.state.is_interested) [
    | inl e ↦ simp e (IsKept-bored s v)
    | inr e ↦ simp e v
  ]
  update_interest-Keeps true s v = elim (Bool-cases s.ctx.state.is_interested) [
    | inl e ↦ simp e v
    | inr e ↦ simp e (
        Runs-with_ctx t.storage (λ u s'. IsKept t.storage s')
          (λ c. count_protocol_up c (header_len MessageId.interested)) s _
          (count_protocol_up-KeepsState s.ctx _)
          (λ c same.
            Keeps-send t.storage t io (to_peer Message.interested) _
              (IsKept-eager _ (IsKept-ctx t.storage s c same v))))
  ]

  IsKept-pieces :
      (s : PeerSession) (picker : PiecePicker) (pieces : List Bool) (count : ℕ)
      → StaysValid s.picker picker
      → count ≡ count_ones pieces
      → length pieces ≡ t.storage.piece_count
      → IsKept t.storage s
      → IsKept t.storage (record s { picker = picker; pieces = pieces; piece_count = count })
  IsKept-pieces s picker pieces count (valid, len) e l v = record {
    sound =
        IsSound-pieces t.storage s picker pieces count
          (record {
            picking = valid;
            same_count = len ∙ v.sound.shared.same_count;
            downloading = v.sound.shared.downloading;
          })
          e l v.sound;
    agreed = v.agreed;
  }

  length-resize : (bits : List Bool) (n : ℕ) → length (resize bits n) ≡ n
  length-resize bits n = omega (
    arith,
    length-append (take n bits) (replicate (n - length bits) false),
    length-take n bits,
    length-replicate (n - length bits) false,
  )

  pub handle_bitfield_msg-Keeps :
      (bits : List Bool) (s : PeerSession)
      → IsKept t.storage s
      → Keeps t.storage (handle_bitfield_msg t bits s)
  unfolding handle_bitfield_msg
  handle_bitfield_msg-Keeps bits s v =
      let pieces = resize bits t.storage.piece_count in
      Runs-checked t.storage (λ _. Unit {0}) (λ u s'. IsKept t.storage s')
        (debug_assert t.dev (is_availability_exchange s.ctx.state.connection)) s _
        (any (debug_assert t.dev (is_availability_exchange s.ctx.state.connection)))
        (λ _ _.
          Runs-checked t.storage (λ r. StaysValid s.picker (r.0)) (λ u s'. IsKept t.storage s')
            (register_peer_pieces s.picker pieces) s _
            (register_peer_pieces-StaysValid s.picker pieces v.sound.shared.picking)
            (λ r h. update_interest-Keeps (r.1) _ (
              IsKept-pieces s (r.0) pieces (count_ones pieces) h refl
                (length-resize bits t.storage.piece_count) v)))
    where
      any : (r : Checked (Unit {0})) → IfReturns (λ _. Unit {0}) r
      any (ret u) = tt
      any panic = tt

  count_ones-set :
      (bits : List Bool) (i : ℕ)
      → get_elem? bits i ≡ some false
      → count_ones (set bits i true) ≡ count_ones bits + 1
  count_ones-set [] i e = cc
  count_ones-set (b ∷ bits) zero e = ground arith
  count_ones-set (b ∷ bits) (suc i) e = omega (arith, count_ones-set bits i e)

  handle_new_piece-Keeps :
      (i : ℕ) (s : PeerSession)
      → get_elem? s.pieces i ≡ some false
      → IsKept t.storage s
      → Keeps t.storage (handle_new_piece t i s)
  unfolding handle_new_piece
  handle_new_piece-Keeps i s e v =
      Runs-checked t.storage (λ n. n ≡ s.piece_count + 1) (λ u s'. IsKept t.storage s')
        (add_bits 64 s.piece_count 1) s _ added
        (λ n eq.
          Runs-checked t.storage (λ r. StaysValid s.picker (r.0)) (λ u s'. IsKept t.storage s')
            (register_peer_piece s.picker i) s _
            (register_peer_piece-StaysValid s.picker i v.sound.shared.picking)
            (λ r h. update_interest-Keeps (r.1) _ (
              IsKept-pieces s (r.0) (set s.pieces i true) n h
                (omega (arith, eq, v.sound.counted, count_ones-set s.pieces i e))
                (length-set s.pieces i true ∙ v.sound.sized) v)))
    where
      added : IfReturns (λ n. n ≡ s.piece_count + 1) (add_bits 64 s.piece_count 1)
      added = elim (Bool-cases (ltb (s.piece_count + 1) (2 ^ 64))) [
        | inl l ↦ rw l refl
        | inr l ↦ rw l tt
      ]

  pub handle_have_msg-Keeps :
      (i : ℕ) (s : PeerSession) → IsKept t.storage s → Keeps t.storage (handle_have_msg t i s)
  unfolding handle_have_msg validate_piece_index
  handle_have_msg-Keeps i s v = elim (Bool-cases (ltb i t.storage.piece_count)) [
    | inr e ↦ rw e v
    | inl e ↦ rw e (
        Runs-checked t.storage (λ b. get_elem? s.pieces i ≡ some b) (λ u s'. IsKept t.storage s')
          (Prelude.index s.pieces i) s _ (index-found s.pieces i) by_case)
  ]
    where
      by_case :
          (b : Bool)
          → get_elem? s.pieces i ≡ some b
          → Keeps t.storage ((if b then pure tt else handle_new_piece t i) s)
      by_case true e = v
      by_case false e = handle_new_piece-Keeps i s e v
