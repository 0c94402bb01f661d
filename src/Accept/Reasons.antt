-- ===== src/Accept/Reasons.antt =====
-- accept.go: what the outcome of AcceptLoop says of the connection.

use pollmux.Base.{
  ℕ, suc, ◌+◌, ◌≡◌, refl, Bool, true, false, List, [], ◌∷◌, Option, none, some, length, In, arith,
}
use pollmux.Reconnect.{Outcome, transport_failed, peer_closed, superseded, shutdown}
use pollmux.Accept.{
  Case, Event, ctx_done, failed_signal, superseded_signal, yamux_closed, accept_failed,
  stream_accepted, classify_close, take_case, handled, accept_loop,
}

-- A select takes a case only if it is ready.
abbrev pub IsReady : Event → Case → Type 0
IsReady e ctx_done = e.cancelled ≡ true
IsReady e failed_signal = e.failed ≡ true
IsReady e superseded_signal = e.replaced ≡ true
IsReady e yamux_closed = e.yamux_done ≡ true
IsReady e accept_failed = e.yamux_done ≡ true
IsReady e stream_accepted = Unit

abbrev pub AllReady : List Event → Type 0
AllReady [] = Unit
AllReady (e ∷ es) = IsReady e e.taken × AllReady es

-- What an outcome says of the event that it came with.
abbrev pub Justifies : Event → Outcome → Type 0
Justifies e shutdown = e.cancelled ≡ true
Justifies e transport_failed = e.failed ≡ true
Justifies e superseded = e.replaced ≡ true
Justifies e peer_closed = (e.yamux_done ≡ true) × (e.failed ≡ false)

abbrev JustifiesOption : Event → Option Outcome → Type 0
JustifiesOption e none = Unit
JustifiesOption e (some o) = Justifies e o

classify-Justifies :
    (e : Event) (failed : Bool)
    → e.failed ≡ failed
    → e.yamux_done ≡ true
    → Justifies e (classify_close failed)
unfolding classify_close
classify-Justifies e true f y = f
classify-Justifies e false f y = (y, f)

take_case-Justifies :
    (e : Event) (c : Case) → IsReady e c → JustifiesOption e (take_case c e.failed)
unfolding take_case
take_case-Justifies e ctx_done r = r
take_case-Justifies e failed_signal r = r
take_case-Justifies e superseded_signal r = r
take_case-Justifies e yamux_closed r = classify-Justifies e e.failed refl r
take_case-Justifies e accept_failed r = classify-Justifies e e.failed refl r
take_case-Justifies e stream_accepted r = r

-- Where a run of the loop stands.
abbrev pub Reasoned : ℕ → List Event → Option Outcome × ℕ → Type 0
Reasoned n es (none, m) = m ≡ n + length es
Reasoned n es (some o, m) = (e : Event) × In e es × Justifies e o

handled-Reasoned :
    (n : ℕ) (k : ℕ → Option Outcome × ℕ) (e : Event) (es : List Event) (o : Option Outcome)
    → JustifiesOption e o
    → Reasoned (suc n) es (k (suc n))
    → Reasoned n (e ∷ es) (handled n k o)
unfolding handled
handled-Reasoned n k e es (some o) j h = (e, In.here, j)
handled-Reasoned n k e es none j h = later (k (suc n)) h
  where
    later : (x : Option Outcome × ℕ) → Reasoned (suc n) es x → Reasoned n (e ∷ es) x
    later (none, m) h = omega arith
    later (some o, m) (e', i, j') = (e', In.there i, j')

-- AcceptLoop returns for a reason that one of its events bears out: a shutdown with a cancelled
-- context, a failure with TransportFailed closed, superseded with SessionSuperseded closed, and a
-- closed peer with yamux ended and TransportFailed open. While it has not returned, it has handed on a
-- stream for every event. The select took cases that were ready.
pub accept_loop-Reasoned :
    (n : ℕ) (es : List Event) → AllReady es → Reasoned n es (accept_loop n es)
unfolding accept_loop
accept_loop-Reasoned n [] v = omega arith
accept_loop-Reasoned n (e ∷ es) (r, v) =
    handled-Reasoned n (λ m. accept_loop m es) e es (take_case e.taken e.failed)
      (take_case-Justifies e e.taken r) (accept_loop-Reasoned (suc n) es v)
