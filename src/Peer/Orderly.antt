-- ===== src/Peer/Orderly.antt =====
-- What holds of a session and its events at all times.
use cratetorrent.Prelude.{
  ℕ, ◌≡◌, refl, sym, ap, ◌∙◌, inr, ◌⊎◌, Bool, true, false, List, [], ◌∷◌, All, length,
}
use cratetorrent.Block.{BlockInfo}
use cratetorrent.Storage.{StorageInfo}
use cratetorrent.Counter.{FloatApi}
use cratetorrent.PiecePicker.{PiecePicker}
use cratetorrent.Codec.{Message}
use cratetorrent.Session.{SessionContext}
use cratetorrent.Peer.{
  Event, received, to_peer, read_block, write_block, PeerSession, Downloads, block_info, remove,
}
use cratetorrent.Peer.Messages.{count_ones}
use cratetorrent.Peer.Valid.{IsBlockOf}
use cratetorrent.Peer.Sets.{All-remove, All-map}
use cratetorrent.Peer.Filling.{IsShared}

module _ ⦃api : FloatApi⦄ where
  -- The event is among those of the log.
  abbrev pub Happened : List Event → Event → Type 0
  Happened [] e = ⊥
  Happened (x ∷ xs) e = (x ≡ e) ⊎ Happened xs e

  -- Whether the last choke or unchoke that was received is a choke; at first the peer chokes us.
  abbrev pub is_choked_by : List Event → Bool
  is_choked_by [] = true
  is_choked_by (received Message.choke ∷ log) = true
  is_choked_by (received Message.unchoke ∷ log) = false
  is_choked_by (_ ∷ log) = is_choked_by log

  -- What must have happened before an event. A block is sent to the peer after it was asked of the
  -- disk, and the disk is asked for a block of the torrent, after the peer was unchoked. A request is
  -- for a block of the torrent, while the peer does not choke us, after our interest was sent. What is
  -- written is what was received.
  abbrev pub Follows : StorageInfo → List Event → Event → Type 0
  Follows storage older (to_peer (Message.block p o bytes)) =
      Happened older (read_block (block_info p o bytes))
  Follows storage older (to_peer (Message.request b)) =
      IsBlockOf storage b
      × (is_choked_by older ≡ false)
      × Happened older (to_peer Message.interested)
  Follows storage older (read_block b) =
      IsBlockOf storage b × Happened older (to_peer Message.unchoke)
  Follows storage older (write_block b bytes) =
      (b ≡ block_info b.piece_index b.offset bytes)
      × Happened older (received (Message.block b.piece_index b.offset bytes))
  Follows storage older _ = Unit

  abbrev pub IsOrderly : StorageInfo → List Event → Type 0
  IsOrderly storage [] = Unit
  IsOrderly storage (e ∷ older) = Follows storage older e × IsOrderly storage older

  -- The invariant of a session, but for what the peer has last said of choking.
  pub record IsSound (storage : StorageInfo) (s : PeerSession) : Type 0 where
    pub orderly : IsOrderly storage s.log
    pub pending : All (λ b. Happened s.log (read_block b)) s.incoming_requests
    pub asked : All (λ b. Happened s.log (to_peer (Message.request b))) s.outgoing_requests
    pub unchoked : s.ctx.state.is_peer_choked ≡ false → Happened s.log (to_peer Message.unchoke)
    pub interested : s.ctx.state.is_interested ≡ true → Happened s.log (to_peer Message.interested)
    pub idle : s.ctx.state.is_choked ≡ true → s.outgoing_requests ≡ []
    pub shared : IsShared storage s.picker s.downloads
    pub counted : s.piece_count ≡ count_ones s.pieces
    pub sized : length s.pieces ≡ storage.piece_count

  pub record IsKept (storage : StorageInfo) (s : PeerSession) : Type 0 where
    pub sound : IsSound storage s
    pub agreed : s.ctx.state.is_choked ≡ is_choked_by s.log

  module _ (storage : StorageInfo) (s : PeerSession) where
    -- Another context with the same state.
    pub IsSound-ctx :
        (c : SessionContext)
        → c.state ≡ s.ctx.state
        → IsSound storage s
        → IsSound storage (record s { ctx = c })
    IsSound-ctx c e v = record {
      orderly = v.orderly;
      pending = v.pending;
      asked = v.asked;
      unchoked = λ h. v.unchoked (sym (ap (λ t. t.is_peer_choked) e) ∙ h);
      interested = λ h. v.interested (sym (ap (λ t. t.is_interested) e) ∙ h);
      idle = λ h. v.idle (sym (ap (λ t. t.is_choked) e) ∙ h);
      shared = v.shared;
      counted = v.counted;
      sized = v.sized;
    }

    -- One more event.
    pub IsSound-log :
        (e : Event)
        → Follows storage s.log e
        → IsSound storage s
        → IsSound storage (record s { log = e ∷ s.log })
    IsSound-log e f v = record {
      orderly = (f, v.orderly);
      pending = All-map _ _ s.incoming_requests (λ b p. inr p) v.pending;
      asked = All-map _ _ s.outgoing_requests (λ b p. inr p) v.asked;
      unchoked = λ h. inr (v.unchoked h);
      interested = λ h. inr (v.interested h);
      idle = v.idle;
      shared = v.shared;
      counted = v.counted;
      sized = v.sized;
    }

    -- Other shared data.
    pub IsSound-shared :
        (picker : PiecePicker) (ds : Downloads)
        → IsShared storage picker ds
        → IsSound storage s
        → IsSound storage (record s { picker = picker; downloads = ds })
    IsSound-shared picker ds h v = record {
      orderly = v.orderly;
      pending = v.pending;
      asked = v.asked;
      unchoked = v.unchoked;
      interested = v.interested;
      idle = v.idle;
      shared = h;
      counted = v.counted;
      sized = v.sized;
    }

    -- A request of ours less.
    pub IsSound-answered :
        (b : BlockInfo)
        → IsSound storage s
        → IsSound storage (record s { outgoing_requests = remove s.outgoing_requests b })
    IsSound-answered b v = record {
      orderly = v.orderly;
      pending = v.pending;
      asked = All-remove _ s.outgoing_requests b v.asked;
      unchoked = v.unchoked;
      interested = v.interested;
      idle = λ h. ap (λ set. remove set b) (v.idle h);
      shared = v.shared;
      counted = v.counted;
      sized = v.sized;
    }

    -- None of our requests.
    pub IsSound-freed :
        (ds : Downloads)
        → IsShared storage s.picker ds
        → IsSound storage s
        → IsSound storage (record s { outgoing_requests = []; downloads = ds })
    IsSound-freed ds h v = record {
      orderly = v.orderly;
      pending = v.pending;
      asked = tt;
      unchoked = v.unchoked;
      interested = v.interested;
      idle = λ e. refl;
      shared = h;
      counted = v.counted;
      sized = v.sized;
    }

    -- A request of the peer less.
    pub IsSound-served :
        (b : BlockInfo)
        → IsSound storage s
        → IsSound storage (record s { incoming_requests = remove s.incoming_requests b })
    IsSound-served b v = record {
      orderly = v.orderly;
      pending = All-remove _ s.incoming_requests b v.pending;
      asked = v.asked;
      unchoked = v.unchoked;
      interested = v.interested;
      idle = v.idle;
      shared = v.shared;
      counted = v.counted;
      sized = v.sized;
    }

    -- Other pieces of the peer.
    pub IsSound-pieces :
        (picker : PiecePicker) (pieces : List Bool) (count : ℕ)
        → IsShared storage picker s.downloads
        → count ≡ count_ones pieces
        → length pieces ≡ storage.piece_count
        → IsSound storage s
        → IsSound storage (record s { picker = picker; pieces = pieces; piece_count = count })
    IsSound-pieces picker pieces count h e l v = record {
      orderly = v.orderly;
      pending = v.pending;
      asked = v.asked;
      unchoked = v.unchoked;
      interested = v.interested;
      idle = v.idle;
      shared = h;
      counted = e;
      sized = l;
    }
