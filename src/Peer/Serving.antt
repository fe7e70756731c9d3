-- ===== src/Peer/Serving.antt =====
-- The sessions that may come about, and what holds of all that they send.
use cratetorrent.Prelude.{ℕ, ◌≡◌, subst, Bool, true, none, some}
use cratetorrent.Counter.{FloatApi}
use cratetorrent.PiecePicker.{PiecePicker}
use cratetorrent.Peer.{Torrent, PeerSession, Downloads}
use cratetorrent.Peer.Effects.{Outcome, done, failed, panicked}
use cratetorrent.Peer.Run.{Direction, Greeting, Input, new, shake_hands, begin, react, finish}
use cratetorrent.Peer.Filling.{IsSized, IsShared}
use cratetorrent.Peer.Orderly.{IsOrderly, IsKept, IsSound-shared}
use cratetorrent.Peer.Rules.{Keeps, Runs}
use cratetorrent.Peer.Running.{Ended, react-Keeps, begin-Keeps, finish-Ended}
use cratetorrent.Peer.Starting.{new-IsKept, shake_hands-Keeps}

module _ ⦃api : FloatApi⦄ (t : Torrent) where
  -- The sessions that may come about: they shake hands and begin, and then handle inputs in any order,
  -- while other sessions and the torrent change what is shared, which stays valid.
  pub data Reaches : PeerSession → Type 0 where
    begun :
        {picker : PiecePicker} {ds : Downloads} {s s' : PeerSession} (direction : Direction)
        (greeting : Greeting) (now : ℕ)
        → IsShared t.storage picker ds
        → shake_hands t direction greeting (new t picker ds) ≡ done true s
        → begin t now s ≡ done tt s'
        → Reaches s'
    reacted :
        {s s' : PeerSession} (now : ℕ) (input : Input)
        → Reaches s
        → react t now input s ≡ done true s'
        → Reaches s'
    shared :
        {s : PeerSession} (picker : PiecePicker) (ds : Downloads)
        → Reaches s
        → IsShared t.storage picker ds
        → Reaches (record s { picker = picker; downloads = ds })

  -- In every session that may come about: the last choke or unchoke that the peer sent says whether we
  -- are choked; while choked no request is pending, and every pending request was sent; the blocks to be read for the
  -- peer were asked of the disk task; the peer's piece count is that of its pieces; the shared piece
  -- picker and downloads are valid; and the events are in order.
  pub kept_lem : (s : PeerSession) → IsSized t.storage → Reaches s → IsKept t.storage s
  kept_lem _ z (begun {picker = picker} {ds = ds} direction greeting now h e f) =
      let v =
        subst (Keeps t.storage) e
          (shake_hands-Keeps t direction greeting (new t picker ds) (new-IsKept t picker ds h)) in
      subst (Keeps t.storage) f (begin-Keeps t now _ v)
  kept_lem _ z (reacted {s = s} now input r e) =
      subst (Keeps t.storage) e (react-Keeps t now input s z (kept_lem s z r))
  kept_lem _ z (shared {s = s} picker ds r h) =
      let v = kept_lem s z r in
      record { sound = IsSound-shared t.storage s picker ds h v.sound; agreed = v.agreed }

  -- In every session that may come about, at each event of it: a block that is sent to the peer was asked of the disk
  -- before, and the disk is only asked for blocks that lie within a piece of the torrent, after the
  -- peer was unchoked; a request is for a block that lies within a piece, is sent only while the last
  -- choke or unchoke of the peer is an unchoke, and after it was told of our interest; and a block that
  -- is written to disk was received from the peer, with these bytes.
  pub serving_lem : (s : PeerSession) → IsSized t.storage → Reaches s → IsOrderly t.storage s.log
  serving_lem s z r = (kept_lem s z r).sound.orderly

  -- How a session may end: an input fails, or it says that the session ends.
  abbrev pub EndsWell : Outcome Bool → Type 0
  EndsWell (done goes_on s) = Runs t.storage (Ended t) (finish t none s)
  EndsWell (failed e s) = Runs t.storage (Ended t) (finish t (some e) s)
  EndsWell panicked = Unit

  -- However an input ends a session that has come about, by an error or by a stop: what `start` does
  -- after that, unless it panics, keeps the invariant, also where a send in it fails, and otherwise
  -- leaves no request pending.
  pub ended_lem :
      (now : ℕ) (input : Input) (s : PeerSession)
      → IsSized t.storage
      → Reaches s
      → EndsWell (react t now input s)
  ended_lem now input s z r =
      go (react t now input s) (react-Keeps t now input s z (kept_lem s z r))
    where
      go : (o : Outcome Bool) → Keeps t.storage o → EndsWell o
      go (done goes_on s') v = finish-Ended t none s' v
      go (failed e s') v = finish-Ended t (some e) s' v
      go panicked v = tt
