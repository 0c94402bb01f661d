-- ===== src/Supervise/Runs.antt =====
-- resumable_client.go: supervise at work.
use pollmux.Base.{◌≡◌, refl, false, [], ◌∷◌, inl, inr, arith}
use pollmux.Supervise.{
  Legs, fails, going, transport, body_timeout, resumed, supervise, supervise_from, one_set,
  after_legs, after_resumed, record_body_timeout, record_resume, same_progress,
}
use pollmux.Supervise.Stability.{IsUseless, IsUseful, supervise-fast, supervise-useful}

abbrev useless : Legs
useless = record {
  duration = 1999;
  stopped = false;
  error = transport;
  broken = false;
  before = record { acked = 4; recv = 9 };
  recv_after = 9;
  resume = resumed;
  after_resume = record { acked = 4; recv = 9 };
}

abbrev stuck : Legs
stuck = record useless {
  duration = 30000;
  error = body_timeout;
  after_resume = record { acked = 7; recv = 9 };
}

abbrev useful : Legs
useful = record useless { after_resume = record { acked = 5; recv = 9 } }

useless-IsUseless : IsUseless useless
unfolding same_progress
useless-IsUseless = (refl, refl, refl, omega arith, refl, refl)

-- Four useless sets and a useful one leave the counters at 0.
four_then_useful :
    supervise (useless ∷ useless ∷ useless ∷ useless ∷ useful ∷ [])
    ≡ going (record { consecutive_fast = 0; consecutive_body_timeouts = 0 })
unfolding supervise supervise_from one_set after_legs after_resumed record_body_timeout
    record_resume same_progress
four_then_useful = refl

supervise-fast_example :
    supervise (
      useless ∷ useless ∷ useless ∷ useless ∷ useful ∷ useless ∷ useless ∷ useless ∷ useless
      ∷ useless ∷ [])
    ≡ fails
supervise-fast_example =
    supervise-fast (useless ∷ useless ∷ useless ∷ useless ∷ useful ∷ []) _
      (useless ∷ useless ∷ useless ∷ useless ∷ useless ∷ []) four_then_useful
      (
        useless-IsUseless,
        (useless-IsUseless, (useless-IsUseless, (useless-IsUseless, (useless-IsUseless, tt)))),
      )
      (omega arith)

useful-IsUseful : IsUseful useful
unfolding same_progress
useful-IsUseful = (refl, inl refl, refl, refl, refl)

-- A body that did not finish, of which some bytes came.
abbrev half_received : Legs
half_received = record useful { error = body_timeout; recv_after = 10 }

half_received-IsUseful : IsUseful half_received
unfolding same_progress
half_received-IsUseful = (refl, inr (refl, refl), refl, refl, refl)

supervise-useful_example :
    supervise (useless ∷ useless ∷ useless ∷ useless ∷ useful ∷ useful ∷ half_received ∷ [])
    ≡ going (record { consecutive_fast = 0; consecutive_body_timeouts = 0 })
supervise-useful_example =
    supervise-useful (useless ∷ useless ∷ useless ∷ useless ∷ useful ∷ []) _ useful
      (half_received ∷ []) four_then_useful (useful-IsUseful, (half_received-IsUseful, tt))
