-- ===== src/Accept.antt =====
-- accept.go: AcceptLoop. Each event of a script is the case that its select took, with what the
-- connection had signalled by then; the select takes any case that is ready.
pub mod Reasons
mod Runs
use pollmux.Base.{ℕ, suc, Bool, true, false, List, [], ◌∷◌, Option, none, some, if◌then◌else◌}
use pollmux.Reconnect.{Outcome, transport_failed, peer_closed, superseded, shutdown}

pub data Case : Type 0 where
  ctx_done failed_signal superseded_signal yamux_closed accept_failed stream_accepted : Case

pub record Event : Type 0 where
  pub taken : Case
  -- Whether ctx is done, and TransportFailed, SessionSuperseded and CloseChan are closed.
  pub cancelled : Bool
  pub failed : Bool
  pub replaced : Bool
  pub yamux_done : Bool

unfoldable pub classify_close : Bool → Outcome
classify_close failed = if failed then transport_failed else peer_closed

-- One pass of the loop: an outcome, or a stream for `handle`.
unfoldable pub take_case : Case → Bool → Option Outcome
unfolding classify_close
take_case ctx_done failed = some shutdown
take_case failed_signal failed = some transport_failed
take_case superseded_signal failed = some superseded
take_case yamux_closed failed = some (classify_close failed)
take_case accept_failed failed = some (classify_close failed)
take_case stream_accepted failed = none

handled : ℕ → (ℕ → Option Outcome × ℕ) → Option Outcome → Option Outcome × ℕ
handled n k (some o) = (some o, n)
handled n k none = k (suc n)

-- AcceptLoop: its outcome, if it has one yet, and the streams that it handed on.
unfoldable pub accept_loop : ℕ → List Event → Option Outcome × ℕ
unfolding handled take_case
accept_loop n [] = (none, n)
accept_loop n (e ∷ es) = handled n (λ m. accept_loop m es) (take_case e.taken e.failed)
