-- ===== src/Peer/Rules.antt =====
-- Rules for handlers that keep the invariant of a session, whether they return or fail.
use cratetorrent.Prelude.{
  ℕ, ◌≡◌, refl, sym, ap, ◌∙◌, Bool, true, false, Option, none, some, List, ◌∷◌, Checked, IfReturns,
  Bool-cases, inl, inr,
}
use cratetorrent.Prelude as Prelude
use cratetorrent.Counter as Counter
use cratetorrent.Counter.{FloatApi}
use cratetorrent.Storage.{StorageInfo}
use cratetorrent.Session.{SessionContext}
use cratetorrent.Session.State.{KeepsState}
use cratetorrent.Peer.{PeerError, Event, Torrent, PeerSession}
use cratetorrent.Peer.Pipeline.{count_protocol_up, count_protocol_down}
use cratetorrent.Peer.Effects.{
  Outcome, done, failed, panicked, Handler, then_do, checked, with_ctx, send, when,
}
use cratetorrent.Peer.Orderly.{is_choked_by, Follows, IsKept, IsSound-ctx, IsSound-log}

module _ ⦃api : FloatApi⦄ (storage : StorageInfo) where
  -- A result has the property, and a failure keeps the invariant.
  abbrev pub Runs : {A : Type 0} → (A → PeerSession → Type 0) → Outcome A → Type 0
  Runs Q (done a s) = Q a s
  Runs Q (failed e s) = IsKept storage s
  Runs Q panicked = Unit

  -- The invariant, and no more.
  abbrev pub Keeps : {A : Type 0} → Outcome A → Type 0
  Keeps = Runs (λ a s. IsKept storage s)

  pub Runs-then :
      {A B : Type 0} (Q : A → PeerSession → Type 0) (R : B → PeerSession → Type 0) (o : Outcome A)
      (f : A → Handler B)
      → Runs Q o
      → ((a : A) (s : PeerSession) → Q a s → Runs R (f a s))
      → Runs R (then_do o f)
  Runs-then Q R (done a s) f h k = k a s h
  Runs-then Q R (failed e s) f h k = h
  Runs-then Q R panicked f h k = tt

  pub Runs-checked :
      {A B : Type 0} (P : A → Type 0) (R : B → PeerSession → Type 0) (r : Checked A)
      (s : PeerSession) (f : A → Handler B)
      → IfReturns P r
      → ((a : A) → P a → Runs R (f a s))
      → Runs R (then_do (checked r s) f)
  Runs-checked P R (Prelude.ret a) s f h k = k a h
  Runs-checked P R Prelude.panic s f h k = tt

  pub IsKept-ctx :
      (s : PeerSession) (c : SessionContext)
      → c.state ≡ s.ctx.state
      → IsKept storage s
      → IsKept storage (record s { ctx = c })
  IsKept-ctx s c e v = record {
    sound = IsSound-ctx storage s c e v.sound;
    agreed = ap (λ t. t.is_choked) e ∙ v.agreed;
  }

  pub IsKept-log :
      (s : PeerSession) (e : Event)
      → is_choked_by (e ∷ s.log) ≡ is_choked_by s.log
      → Follows storage s.log e
      → IsKept storage s
      → IsKept storage (record s { log = e ∷ s.log })
  IsKept-log s e n f v = record {
    sound = IsSound-log storage s e f v.sound;
    agreed = v.agreed ∙ sym n;
  }

  -- A handler that goes on after an update of the context.
  pub Runs-with_ctx :
      {B : Type 0} (R : B → PeerSession → Type 0) (f : SessionContext → Checked SessionContext)
      (s : PeerSession) (k : Unit {0} → Handler B)
      → KeepsState s.ctx (f s.ctx)
      → ((c : SessionContext) → c.state ≡ s.ctx.state → Runs R (k tt (record s { ctx = c })))
      → Runs R (then_do (with_ctx f s) k)
  unfolding with_ctx
  Runs-with_ctx R f s k h next = go (f s.ctx) h
    where
      go :
          (r : Checked SessionContext)
          → KeepsState s.ctx r
          → Runs R (then_do (then_do (checked r s) (λ c t. done tt (record t { ctx = c }))) k)
      go (Prelude.ret c) e = next c e
      go Prelude.panic e = tt

  pub Keeps-with_ctx :
      (f : SessionContext → Checked SessionContext) (s : PeerSession)
      → KeepsState s.ctx (f s.ctx)
      → IsKept storage s
      → Keeps (with_ctx f s)
  unfolding with_ctx
  Keeps-with_ctx f s h v = go (f s.ctx) h
    where
      go :
          (r : Checked SessionContext)
          → KeepsState s.ctx r
          → Keeps (then_do (checked r s) (λ c t. done tt (record t { ctx = c })))
      go (Prelude.ret c) e = IsKept-ctx s c e v
      go Prelude.panic e = tt

  -- A handler that goes on after a send; the event is in the log whether or not that succeeds.
  pub Runs-send :
      {B : Type 0} (R : B → PeerSession → Type 0) (t : Torrent) (err : PeerError) (e : Event)
      (s : PeerSession) (k : Unit {0} → Handler B)
      → IsKept storage (record s { log = e ∷ s.log })
      → Runs R (k tt (record s { log = e ∷ s.log }))
      → Runs R (then_do (send t err e s) k)
  unfolding send
  Runs-send R t err e s k v next = elim (Bool-cases (t.accepts s.log e)) [
    | inl a ↦ rw a next
    | inr a ↦ rw a v
  ]

  pub Keeps-send :
      (t : Torrent) (err : PeerError) (e : Event) (s : PeerSession)
      → IsKept storage (record s { log = e ∷ s.log })
      → Keeps (send t err e s)
  unfolding send
  Keeps-send t err e s v = elim (Bool-cases (t.accepts s.log e)) [ inl a ↦ rw a v | inr a ↦ rw a v ]

  pub Keeps-when :
      (b : Bool) (m : Handler (Unit {0})) (s : PeerSession)
      → IsKept storage s
      → (b ≡ true → Keeps (m s))
      → Keeps (when b m s)
  Keeps-when true m s v k = k refl
  Keeps-when false m s v k = v

pub count_protocol_up-KeepsState :
    ⦃api : FloatApi⦄ (c : SessionContext) (bytes : ℕ) → KeepsState c (count_protocol_up c bytes)
unfolding count_protocol_up
count_protocol_up-KeepsState ⦃api⦄ c bytes =
    Prelude.IfReturns-after (λ c'. c'.state ≡ c.state)
      (Counter.add api c.counters.protocol.up bytes) _ (λ up. refl)

pub count_protocol_down-KeepsState :
    ⦃api : FloatApi⦄ (c : SessionContext) (bytes : ℕ) → KeepsState c (count_protocol_down c bytes)
unfolding count_protocol_down
count_protocol_down-KeepsState ⦃api⦄ c bytes =
    Prelude.IfReturns-after (λ c'. c'.state ≡ c.state)
      (Counter.add api c.counters.protocol.down bytes) _ (λ down. refl)
