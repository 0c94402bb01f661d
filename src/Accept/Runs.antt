-- ===== src/Accept/Runs.antt =====
-- Concrete runs of AcceptLoop, and its theorem at a concrete input.
use Prim.{tt}
use pollmux.Base.{◌≡◌, refl, true, false, List, [], ◌∷◌, some}
use pollmux.Reconnect.{peer_closed}
use pollmux.Accept.{Event, stream_accepted, yamux_closed, accept_loop, take_case, classify_close}
use pollmux.Accept.Reasons.{Reasoned, accept_loop-Reasoned}

-- A stream, then yamux ends because the session was superseded, and the select takes CloseChan.
abbrev late_close : List Event
late_close =
    record {
      taken = stream_accepted;
      cancelled = false;
      failed = false;
      replaced = false;
      yamux_done = false;
    }
    ∷ record {
      taken = yamux_closed;
      cancelled = false;
      failed = false;
      replaced = true;
      yamux_done = true;
    }
    ∷ []

superseded_as_closed : accept_loop 0 late_close ≡ (some peer_closed, 1)
unfolding accept_loop take_case classify_close
superseded_as_closed = refl

accept_loop-Reasoned_example : Reasoned 0 late_close (accept_loop 0 late_close)
accept_loop-Reasoned_example = accept_loop-Reasoned 0 late_close (tt, (refl, tt))
