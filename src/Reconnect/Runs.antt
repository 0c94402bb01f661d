-- ===== src/Reconnect/Runs.antt =====
-- reconnect.go: the theorems at work.
use pollmux.Base.{
  ◌*◌, ◌≡◌, refl, ◌≢◌, true, false, List, [], ◌∷◌, none, some, pos, negsuc, arith, All, length,
}
use pollmux.Reconnect.{
  or_duration, loop, round, after_connect, retry, sleep_or_done, after_serve, escalate,
  stable_reset, ReconnectLoop, Round, connection, failed, peer_closed, superseded, settings, run,
  second, stopped,
}
use pollmux.Reconnect.Backoff.{IsSane, IsSleep, run-sleeps, run-delays, delays, Failing}
use pollmux.Reconnect.Ending.{run-Explained, run_returns, Explained}

-- All defaults but the cap, which is 3 s.
abbrev capped : ReconnectLoop
capped = record {
  has_callbacks = true;
  initial_backoff = pos 0;
  max_backoff = pos 3000000000;
  peer_closed_pause = negsuc 0;
  min_stable_duration = negsuc 0;
}

abbrev refused : Round
refused = record {
  connect = failed;
  connecting = 5;
  outcome = peer_closed;
  serving = 0;
  tie = false;
}

abbrev served : Round
served = record {
  connect = connection;
  connecting = 5;
  outcome = peer_closed;
  serving = 70;
  tie = false;
}

abbrev replaced : Round
replaced = record {
  connect = connection;
  connecting = 5;
  outcome = superseded;
  serving = 70;
  tie = true;
}

abbrev refusals : List Round
refusals = refused ∷ refused ∷ refused ∷ refused ∷ []

abbrev mixed : List Round
mixed = refused ∷ served ∷ refused ∷ replaced ∷ []

-- 1 s, 2 s, 3 s, 3 s.
run_test : (run capped none 0 refusals).sleeps ≡ second ∷ 2 * second ∷ 3 * second ∷ 3 * second ∷ []
unfolding run settings loop round after_connect retry sleep_or_done or_duration after_serve escalate
    stable_reset
run_test = refl

capped-IsSane : IsSane (settings capped)
unfolding settings or_duration
capped-IsSane = ground arith

run-sleeps_example : All (IsSleep (settings capped)) (run capped none 0 mixed).sleeps
run-sleeps_example = run-sleeps capped none 0 mixed capped-IsSane

refusals-Failing : Failing refusals
refusals-Failing = (refl, (refl, (refl, (refl, tt))))

run-delays_example :
    (run capped none 0 refusals).sleeps ≡ delays (settings capped) 0 (length refusals)
run-delays_example = run-delays capped 0 refusals refl capped-IsSane refusals-Failing

mixed_stops : (run capped none 0 mixed).exit ≡ some stopped
unfolding run settings loop round after_connect retry sleep_or_done or_duration after_serve escalate
    stable_reset
mixed_stops = refl

run-Explained_example : Explained none mixed stopped (run capped none 0 mixed).now
run-Explained_example = run-Explained capped none 0 mixed stopped refl mixed_stops

-- Cancelled at once, while the first pause lasts.
run_returns_example : (run capped (some 3) 0 refusals).exit ≢ none
run_returns_example = run_returns capped 3 0 refusals capped-IsSane (omega arith) (omega arith)
