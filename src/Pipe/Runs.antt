-- ===== src/Pipe/Runs.antt =====
-- Concrete runs of pipe.go, and its theorems at concrete inputs.
use pollmux.Base.{
  ◌≡◌, ◌≢◌, refl, true, false, List, [], ◌∷◌, ◌++◌, none, some, pos, arith, if◌then◌else◌, ◌&&◌,
  not, max,
}
use pollmux.Pipe.{
  BufferedPipe, Wake, writes, timer, closes, interrupts, timer, got, failed, blocked, eof, write,
  note_high_water, log_warning, read_available, apply, apply_all,
}
use pollmux.Pipe.Content.{outcome, pending, all_changes, outcome-read_available}
use pollmux.Pipe.Outcome.{Justified, read_available-Justified}
use pollmux.Pipe.HighWater.{IsMarked, write_marks}
use pollmux.Pipe.Progress.{read_available-ne-blocked}

abbrev pub watched : BufferedPipe
watched = record {
  buf = 7 ∷ [];
  closed = false;
  hi_water = 1;
  warn_threshold = pos 3;
  warned = false;
  logger = true;
  intr = false;
}

abbrev idle_pipe : BufferedPipe
idle_pipe = record watched { buf = [] }

-- Two writes arrive in one wake-up, and the second phase ends by an interrupt, which stays pending.
abbrev busy_wakes : List Wake
busy_wakes = (writes (1 ∷ []) ∷ writes (2 ∷ []) ∷ []) ∷ (interrupts ∷ []) ∷ (closes ∷ []) ∷ []

read_coalesced :
    read_available idle_pipe 4 busy_wakes
    ≡ (record idle_pipe { intr = true; hi_water = 2 }, got (1 ∷ 2 ∷ []), (closes ∷ []) ∷ [])
unfolding read_available write note_high_water apply apply_all
read_coalesced = refl

read_after_close : (read_available idle_pipe 4 ((closes ∷ []) ∷ [])).1 ≡ failed eof
unfolding read_available apply apply_all
read_after_close = refl

write_warns : (write watched (8 ∷ 9 ∷ [])).2 ≡ some (3, pos 3)
unfolding write note_high_water log_warning
write_warns = refl

outcome-read_available_example :
    outcome (read_available idle_pipe 4 busy_wakes) ≡ pending idle_pipe (all_changes busy_wakes)
outcome-read_available_example = outcome-read_available idle_pipe 4 busy_wakes

-- A spurious wake-up, the timer, and a close that comes too late.
abbrev late_wakes : List Wake
late_wakes = [] ∷ (timer ∷ []) ∷ (closes ∷ []) ∷ []

read_timed_out : read_available idle_pipe 4 late_wakes ≡ (idle_pipe, got [], (closes ∷ []) ∷ [])
unfolding read_available apply apply_all
read_timed_out = refl

read_available-Justified_example : Justified 4 late_wakes (read_available idle_pipe 4 late_wakes)
read_available-Justified_example = read_available-Justified idle_pipe 4 late_wakes (omega arith)

write_marks_example :
    IsMarked (write watched (8 ∷ 9 ∷ [])).0
    × ((write watched (8 ∷ 9 ∷ [])).0.hi_water ≡ max 1 3)
    × ((write watched (8 ∷ 9 ∷ [])).2 ≡ (
        if true && (not false && (write watched (8 ∷ 9 ∷ [])).0.warned)
        then some ((write watched (8 ∷ 9 ∷ [])).0.hi_water, pos 3)
        else none))
write_marks_example =
    write_marks watched (8 ∷ 9 ∷ []) (record { above = omega arith; flagged = refl }) refl

read_available-ne-blocked_example :
    (read_available idle_pipe 4 (busy_wakes ++ (timer ∷ []) ∷ (timer ∷ []) ∷ [])).1 ≢ blocked
read_available-ne-blocked_example = read_available-ne-blocked idle_pipe 4 busy_wakes []
