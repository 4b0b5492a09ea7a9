-- ===== src/Reactor/Engine/Slots.antt =====
-- What it is for an engine to have one connection or one listener more.
use rx_rust.Base.{ℕ, ◌≡◌, ◌≢◌, refl, none, some}
use rx_rust.Reactor.Services.{Kinds, Slabs}
use rx_rust.Reactor.Engine.{Conn, EngineInner}

module _ (l : Slabs) where
  -- The slab has one entry more, at a token that was free.
  pub record Added {A : Type 0} (s s' : l.Slab A) (t : ℕ) : Type 0 where
    pub entry : A
    pub was_free : l.get s t ≡ none
    pub is_there : l.get s' t ≡ some entry
    pub others : (u : ℕ) → u ≢ t → l.get s' u ≡ l.get s u

  pub Added-insert :
      {A : Type 0} (s s' : l.Slab A) (t : ℕ) (a : A) → l.insert s a ≡ some (t, s') → Added s s' t
  Added-insert s s' t a e = record {
    entry = a;
    was_free = l.insert-fresh s s' t a e;
    is_there = l.insert-same s s' t a e;
    others = λ u h. l.insert-other s s' t u a e h;
  }

module _ {k : Kinds} {l : Slabs} where
  -- The engine has one connection more.
  pub record NewConn (e e' : EngineInner k l) (t : ℕ) : Type 0 where
    pub conns : Added l e.conns e'.conns t
    pub listeners : e'.listeners ≡ e.listeners
    pub timeouts : e'.timeouts ≡ e.timeouts
    pub config : e'.config ≡ e.config

  -- The engine has one listener more.
  pub record NewListener (e e' : EngineInner k l) (t : ℕ) : Type 0 where
    pub listeners : Added l e.listeners e'.listeners t
    pub conns : e'.conns ≡ e.conns
    pub timeouts : e'.timeouts ≡ e.timeouts
    pub config : e'.config ≡ e.config

  pub NewConn-Added :
      (e : EngineInner k l) {conns : l.Slab (Conn k)} {t : ℕ}
      → Added l e.conns conns t
      → NewConn e (record e { conns = conns }) t
  NewConn-Added e a = record { conns = a; listeners = refl; timeouts = refl; config = refl }

  pub NewListener-Added :
      (e : EngineInner k l) {listeners : l.Slab (k.Acceptor × k.Tx)} {t : ℕ}
      → Added l e.listeners listeners t
      → NewListener e (record e { listeners = listeners }) t
  NewListener-Added e a = record { listeners = a; conns = refl; timeouts = refl; config = refl }
