-- ===== src/Core/Events/Relays.antt =====
-- What one event of the proxy does to a TCP connection of src/core.c, in both directions.
use nsproxy.Common.{◌≡◌, ◌⊎◌, Bool, true, false, not, Option, some}
use nsproxy.Core.Tcp.{Pbufs, TcpForward, TcpTurn, is_none}
use nsproxy.Core.Tcp.Receive.{unchanged}
use nsproxy.Core.Tcp.Output.{PassesOn}
use nsproxy.Core.Tcp.Input.{TakesIn}
use nsproxy.Core.Events.Tells.{Tells}
use nsproxy.Core.Events.{TcpIo}

-- The second direction: it passes on what it can, or it does nothing because the event does not ask for
-- it or the connection is gone.
abbrev pub Passes : (P : Pbufs) → TcpForward P.Chain → TcpTurn P.Chain → Type 0
Passes P fwd t = PassesOn P fwd t ⊎ (t ≡ unchanged fwd)

-- What an event does: the bytes of both directions are kept in order; the connection is destroyed at
-- most once, and only by a direction that tells of an error. Without an error it lives on, and the
-- SYN+ACK is sent now if it was not before; with an error it is not sent.
pub record Relays (P : Pbufs) (fwd : TcpForward P.Chain) (r : TcpIo P.Chain) : Type 0 where
  pub taken : TakesIn P fwd r.input
  pub passed : Passes P r.input.fwd r.output
  pub once : (is_none r.input.closing ≡ true) ⊎ (r.output ≡ unchanged r.input.fwd)
  pub alive :
      ((r.fwd.proxyestab ≡ true) × (r.flushed ≡ not fwd.proxyestab))
      ⊎ (((is_none r.input.closing ≡ false) ⊎ (is_none r.output.closing ≡ false))
          × (r.flushed ≡ false))

-- What a direction that the event may ask for does.
record Half (P : Pbufs) (estab : Bool) (T : TcpTurn P.Chain → Type 0) (o : Option (TcpTurn P.Chain))
    : Type 0 where
  turn : TcpTurn P.Chain
  gives : o ≡ some turn
  does : T turn
  tells : Tells estab turn

-- The second direction, behind the first.
record Second (P : Pbufs) (i : TcpTurn P.Chain) (o : Option (TcpTurn P.Chain)) : Type 0 where
  turn : TcpTurn P.Chain
  gives : o ≡ some turn
  does : Passes P i.fwd turn
  tells : Tells i.fwd.proxyestab turn
  once : (is_none i.closing ≡ true) ⊎ (turn ≡ unchanged i.fwd)
