-- ===== src/Client/Running/Invariant.antt =====
-- What holds of a client's connections at every moment of a run.
use simple_message.Prelude.{ℕ, zero, suc, true, length, Option, none, some, ◌≡◌, ◌≢◌}
use simple_message.Protocol.Wire.{All}
use simple_message.Server.Handling.{Handling, ended}
use simple_message.Client.Lifecycle.{Life, Phase, new_life, dialing, connected}
use simple_message.Client.Lifecycle
use simple_message.Server.Handling.Linked.{Linked, Over}
use simple_message.Client.Running.{Running}

module _ {T : Type 0} where
  -- The number of the connection that was made last
  abbrev pub newest : Option (Handling T) → ℕ → Option ℕ
  newest (some y) n = some n
  newest none zero = none
  newest none (suc n) = some n

  abbrev pub Place : Option (Handling T) → Running T → Type 0
  Place none x = (j : ℕ) → x.life.phase ≢ connected j
  Place (some y) x =
      (x.life.phase ≡ connected (length x.past))
      × Linked y
      × (y.pc ≢ ended)
      × (x.life.canceled ≡ true → y.manager.ctx_err ≢ none)

  pub record IsSound (x : Running T) : Type 0 where
    pub lively : Lifecycle.IsSound x.life
    pub place : Place x.current x
    pub over : All Over x.past
    pub pointer : x.life.conn_pointer ≡ newest x.current (length x.past)
