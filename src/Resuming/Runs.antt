-- ===== src/Resuming/Runs.antt =====
-- Concrete runs of resume, and its theorems at concrete inputs.
use Prim.{tt}
use pollmux.Base.{◌≡◌, ◌≢◌, refl, true, false, List, [], ◌∷◌, none, pos, arith}
use pollmux.Base
use pollmux.Reliable.{Reliable, new_reliable, resume_out}
use pollmux.Reconnect.{sleep_or_done}
use pollmux.Resuming.{
  Attempt, status, resume_response, no_answer, resumed, trying, gave_up, jitter, do_resume,
  try_once, resume_loop, resume,
}
use pollmux.Resuming.Deadline.{resume_ends}

abbrev fresh : Reliable
fresh = new_reliable (pos 4)

-- No answer, a 503, and a resume.
abbrev third_time : List Attempt
third_time =
    record { answer = no_answer; dialled = false; took = 50; spread = 1000; tie = false }
    ∷ record { answer = status 503; dialled = false; took = 5; spread = 1200; tie = false }
    ∷ record {
      answer = resume_response true 0;
      dialled = true;
      took = 20;
      spread = 1000;
      tie = false;
    }
    ∷ []

resume_third : (resume true none 5000 10 fresh third_time).ending ≡ resumed
unfolding resume resume_loop try_once do_resume jitter sleep_or_done resume_out new_reliable
    Base.sub64
resume_third = refl

resume_third_time : (resume true none 5000 10 fresh third_time).now ≡ 935
unfolding resume resume_loop try_once do_resume jitter sleep_or_done resume_out new_reliable
    Base.sub64
resume_third_time = refl

resume_gone :
    (resume false none 5000 10 fresh (
      record { answer = status 410; dialled = false; took = 5; spread = 900; tie = false }
      ∷ [])).ending
    ≡ gave_up 410
unfolding resume resume_loop try_once do_resume
resume_gone = refl

resume_ends_example : (resume true none 300 10 fresh third_time).ending ≢ trying
resume_ends_example =
    resume_ends true none 300 10 fresh third_time
      ((omega arith, omega arith), ((omega arith, omega arith), ((omega arith, omega arith), tt)))
      (omega arith)
