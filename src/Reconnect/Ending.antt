-- ===== src/Reconnect/Ending.antt =====
-- reconnect.go: when the loop returns, and why.
use pollmux.Base.{
  ℕ, ◌+◌, ◌<◌, ◌≡◌, refl, ◌≢◌, ◌⊎◌, inl, inr, Bool, true, List, [], ◌∷◌, Option, none, some, arith,
  length, Bool-cases, dec_lt, In, here, there,
}
use mathlib.Core.Path.{subst}
use pollmux.Reconnect.{
  ReconnectLoop, Settings, Round, Next, Ran, Exit, no_callbacks, version, cancelled, stopped,
  version_rejected, Connected, Outcome, connection, failed, transport_failed, peer_closed,
  after_sleep, superseded, shutdown, leave, again, settings, sleep_or_done, retry, stable_reset,
  after_serve, after_connect, round, loop, run, follow, cancelled_by,
}
use pollmux.Reconnect.Backoff.{IsSane, IsBackoff, GoesOn, round-GoesOn, settings-initial}

-- What stands behind a return at the time `t`.
abbrev pub Explained : Option ℕ → List Round → Exit → ℕ → Type 0
Explained ctx rs no_callbacks t = ⊥
Explained ctx rs version t = (r : Round) × In r rs × (r.connect ≡ version_rejected)
Explained ctx rs stopped t = (r : Round) × In r rs × (r.outcome ≡ superseded)
Explained ctx rs cancelled t =
    (cancelled_by ctx t ≡ true) ⊎ ((r : Round) × In r rs × (r.outcome ≡ shutdown))

abbrev ExplainedNext : Option ℕ → List Round → Next → Type 0
ExplainedNext ctx rs (leave e t) = Explained ctx rs e t
ExplainedNext ctx rs (again b t d) = Unit

retry-Explained :
    (s : Settings) (ctx : Option ℕ) (b now : ℕ) (tie : Bool) (rs : List Round)
    → ExplainedNext ctx rs (retry s ctx b now tie)
unfolding retry sleep_or_done
retry-Explained s none b now tie rs = ground arith
retry-Explained s (some c) b now tie rs = ground arith

sleep-Explained :
    (ctx : Option ℕ) (b d now : ℕ) (tie : Bool) (rs : List Round)
    → ExplainedNext ctx rs (after_sleep b d (sleep_or_done ctx now d tie))
unfolding sleep_or_done
sleep-Explained none b d now tie rs = ground arith
sleep-Explained (some c) b d now tie rs = ground arith

after_serve-Explained :
    (s : Settings) (ctx : Option ℕ) (b now : ℕ) (r : Round) (rs : List Round) (o : Outcome)
    → r.outcome ≡ o
    → ExplainedNext ctx (r ∷ rs) (after_serve s ctx b now r o)
unfolding after_serve
after_serve-Explained s ctx b now r rs transport_failed e =
    retry-Explained s ctx (stable_reset s b r.serving) now r.tie (r ∷ rs)
after_serve-Explained s ctx b now r rs peer_closed e =
    sleep-Explained ctx b s.peer_pause now r.tie (r ∷ rs)
after_serve-Explained s ctx b now r rs superseded e = (r, here, e)
after_serve-Explained s ctx b now r rs shutdown e = inr (r, here, e)

after_connect-Explained :
    (s : Settings) (ctx : Option ℕ) (b now : ℕ) (r : Round) (rs : List Round) (k : Connected)
    → r.connect ≡ k
    → ExplainedNext ctx (r ∷ rs) (after_connect s ctx b now r k)
unfolding after_connect
after_connect-Explained s ctx b now r rs connection e =
    after_serve-Explained s ctx b (now + r.serving) r rs r.outcome refl
after_connect-Explained s ctx b now r rs version_rejected e = (r, here, e)
after_connect-Explained s ctx b now r rs failed e = elim (Bool-cases (cancelled_by ctx now)) [
  | inl done ↦ simp done (inl refl)
  | inr live ↦ simp live (retry-Explained s ctx b now r.tie (r ∷ rs))
]

round-Explained :
    (s : Settings) (ctx : Option ℕ) (b now : ℕ) (r : Round) (rs : List Round)
    → ExplainedNext ctx (r ∷ rs) (round s ctx b now r)
unfolding round
round-Explained s ctx b now r rs = elim (Bool-cases (cancelled_by ctx now)) [
  | inl done ↦ simp done (inl refl)
  | inr live ↦ simp live (after_connect-Explained s ctx b (now + r.connecting) r rs r.connect refl)
]

Explained-there :
    (ctx : Option ℕ) (r : Round) (rs : List Round) (e : Exit) (t : ℕ)
    → Explained ctx rs e t
    → Explained ctx (r ∷ rs) e t
Explained-there ctx r rs no_callbacks t h = h
Explained-there ctx r rs version t (q, i, e) = (q, there i, e)
Explained-there ctx r rs stopped t (q, i, e) = (q, there i, e)
Explained-there ctx r rs cancelled t (inl h) = inl h
Explained-there ctx r rs cancelled t (inr (q, i, e)) = inr (q, there i, e)

follow-Explained :
    (ctx : Option ℕ) (b : ℕ) (r : Round) (rs : List Round) (rest : ℕ → ℕ → Ran) (n : Next)
    (e : Exit)
    → ExplainedNext ctx (r ∷ rs) n
    → ((b' t : ℕ) → (rest b' t).exit ≡ some e → Explained ctx rs e (rest b' t).now)
    → (follow rest b n).exit ≡ some e
    → Explained ctx (r ∷ rs) e (follow rest b n).now
follow-Explained ctx b r rs rest (leave e' t) e g ih q =
    let p : e' ≡ e = cc q in subst (λ x. Explained ctx (r ∷ rs) x t) p g
follow-Explained ctx b r rs rest (again b' t d) e g ih q =
    Explained-there ctx r rs e (rest b' t).now (ih b' t q)

loop-Explained :
    (s : Settings) (ctx : Option ℕ) (b now : ℕ) (rs : List Round) (e : Exit)
    → (loop s ctx b now rs).exit ≡ some e
    → Explained ctx rs e (loop s ctx b now rs).now
unfolding loop
loop-Explained s ctx b now [] e q = cc q
loop-Explained s ctx b now (r ∷ rs) e q =
    follow-Explained ctx b r rs (λ b' t. loop s ctx b' t rs) (round s ctx b now r) e
      (round-Explained s ctx b now r rs) (λ b' t. loop-Explained s ctx b' t rs e) q

-- With both callbacks set, the loop returns for a reason only: a version error when Connect met one, nil
-- when Serve reported a newer session, and the context's error, which is nil if there is none, when the
-- context is cancelled by then or Serve reported a shutdown.
pub run-Explained :
    (l : ReconnectLoop) (ctx : Option ℕ) (now : ℕ) (rs : List Round) (e : Exit)
    → l.has_callbacks ≡ true
    → (run l ctx now rs).exit ≡ some e
    → Explained ctx rs e (run l ctx now rs).now
unfolding run settings
run-Explained l ctx now rs e c =
    rw c (loop-Explained (settings l) ctx (settings l).initial now rs e)

follow_returns :
    (s : Settings) (b now : ℕ) (rest : ℕ → ℕ → Ran) (n : Next)
    → IsSane s
    → GoesOn s now n
    → ((b' t : ℕ) → IsBackoff s b' → now < t → (rest b' t).exit ≢ none)
    → (follow rest b n).exit ≢ none
follow_returns s b now rest (leave e t) sane g ih q = cc q
follow_returns s b now rest (again b' t d) sane (h, d', g) ih q =
    ih b' t h (ground (arith, sane, d', g)) q

cancelled_round :
    (s : Settings) (c b now : ℕ) (r : Round)
    → ¬ now < c
    → round s (some c) b now r ≡ leave cancelled now
unfolding round
cancelled_round s c b now r over = ground arith

loop_returns :
    (s : Settings) (c b now : ℕ) (rs : List Round)
    → IsSane s
    → IsBackoff s b
    → c < now + length rs
    → 0 < length rs
    → (loop s (some c) b now rs).exit ≢ none
unfolding loop
loop_returns s c b now [] sane h late more e = ground (arith, more)
loop_returns s c b now (r ∷ rs) sane h late more e = elim (dec_lt now c) [
  | yes live ↦
      follow_returns s b now (λ b' t. loop s (some c) b' t rs) (round s (some c) b now r) sane
        (round-GoesOn s (some c) b now r sane h)
        (λ b' t h' after. loop_returns s c b' t rs sane h' (omega arith) (omega arith)) e
  | no over ↦ cc (cancelled_round s c b now r over, e)
]

-- Each round that goes on takes time, since no pause is empty: a loop whose context is cancelled at
-- `c` has returned, whatever the callbacks do, once it had a round for each moment up to `c` and at
-- least one.
pub run_returns :
    (l : ReconnectLoop) (c now : ℕ) (rs : List Round)
    → IsSane (settings l)
    → c < now + length rs
    → 0 < length rs
    → (run l (some c) now rs).exit ≢ none
unfolding run settings
run_returns l c now rs sane late more = elim (Bool-cases l.has_callbacks) [
  | inl e ↦
      rw e (
        loop_returns (settings l) c (settings l).initial now rs sane (settings-initial l) late more)
  | inr e ↦ rw e (λ q. cc q)
]
