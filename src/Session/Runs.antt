-- ===== src/Session/Runs.antt =====
-- Concrete runs of session.go, and its theorems at concrete inputs.
use pollmux.Base.{◌+◌, ◌≡◌, ◌≤◌, ◌<◌, refl, true, false, [], some, pos, ◌⊎◌}
use pollmux.Session.{
  Session, new_session, enable_resume, begin_poll, begin_websocket, resume_deadline,
  in_resume_grace, refuses_attach, close_once, mark_closed,
}
use pollmux.Reliable.{new_reliable}
use pollmux.Session.Life.{
  Life, IsBalanced, begins, closes, marks, start, next, count, Reach-IsBalanced,
}
use pollmux.Session.Grace.{resume_deadline_lem}

abbrev pub fresh : Session
fresh = new_session "a1" [] 100

abbrev pub resumable_session : Session
resumable_session = enable_resume fresh (pos 64) 30

deadline : resume_deadline resumable_session ≡ some 130
unfolding new_session enable_resume resume_deadline new_reliable
deadline = refl

resume_deadline_lem_example :
    ((131 ≤ 130)
      × ((begin_poll resumable_session 131).1 ≡ true)
      × (in_resume_grace resumable_session 131 ≡ true)
      × (refuses_attach resumable_session 131 ≡ false))
    ⊎ ((130 < 131)
        × ((begin_poll resumable_session 131).1 ≡ false)
        × ((begin_websocket resumable_session 131).1 ≡ false)
        × (in_resume_grace resumable_session 131 ≡ false)
        × (refuses_attach resumable_session 131 ≡ true))
resume_deadline_lem_example = resume_deadline_lem resumable_session 130 131 deadline

abbrev born : Life
born = record { session = resumable_session; polls = 0; sockets = 0; wins = 0 }

abbrev polled : Life
polled = record born {
  session = (begin_poll born.session 110).0;
  polls = born.polls + count (begin_poll born.session 110).1;
}

abbrev shut : Life
shut = record polled {
  session = (close_once polled.session).0;
  wins = polled.wins + count (close_once polled.session).1;
}

abbrev shut_twice : Life
shut_twice = record shut {
  session = (mark_closed shut.session).0;
  wins = shut.wins + count (mark_closed shut.session).1;
}

born-IsBalanced : IsBalanced born
unfolding new_session enable_resume
born-IsBalanced = record { counted = refl; attached = refl; won = refl }

Reach-IsBalanced_example : IsBalanced shut_twice
Reach-IsBalanced_example =
    Reach-IsBalanced born-IsBalanced
      (next (next (next start (begins born 110)) (closes polled)) (marks shut))
