-- ===== src/Session/Grace.antt =====
-- session.go: the grace of a resumable session, as its own methods see it.
use pollmux.Base.{
  ℕ, dec_lt, ◌+◌, ◌-◌, ◌<◌, ◌≤◌, ◌≡◌, refl, true, false, is_zero, Option, none, some, arith, ◌⊎◌,
  inl, inr, ltb, leb,
}
use pollmux.Reliable.{Reliable}
use pollmux.Session.{
  Session, begin_poll, begin_websocket, resume_deadline, in_resume_grace, refuses_attach, is_whole,
  is_set,
}

set_of_whole : (o : Option Reliable) → is_whole o ≡ true → is_set o ≡ true
set_of_whole none h = cc
set_of_whole (some r) h = refl

deadline_facts :
    (s : Session) (deadline : ℕ)
    → resume_deadline s ≡ some deadline
    → (is_set s.rs ≡ true)
      × (is_whole s.rs ≡ true)
      × (is_zero s.poll_in_flight ≡ true)
      × (s.closed ≡ false)
      × (deadline ≡ s.detached_at + s.resume_grace)
unfolding resume_deadline
deadline_facts s deadline h =
    (ground (arith, set_of_whole s.rs), ground arith, ground arith, ground arith, ground arith)

-- ResumeDeadline against the calls that it speaks for: until the deadline, included, the session is
-- inside its grace and a poll may attach; after it the session is not, and nothing may ever attach.
pub resume_deadline_lem :
    (s : Session) (deadline now : ℕ)
    → resume_deadline s ≡ some deadline
    → ((now ≤ deadline)
        × ((begin_poll s now).1 ≡ true)
        × (in_resume_grace s now ≡ true)
        × (refuses_attach s now ≡ false))
      ⊎ ((deadline < now)
          × ((begin_poll s now).1 ≡ false)
          × ((begin_websocket s now).1 ≡ false)
          × (in_resume_grace s now ≡ false)
          × (refuses_attach s now ≡ true))
unfolding begin_poll begin_websocket in_resume_grace refuses_attach
resume_deadline_lem s deadline now h =
    let (set, whole, idle, open_still, at) = deadline_facts s deadline h in
    elim (dec_lt deadline now) [
      | yes late ↦
          let past : ltb s.resume_grace (now - s.detached_at) ≡ true = ground arith in
          let over : leb (now - s.detached_at) s.resume_grace ≡ false = ground arith in
          inr (late, cc, ground arith, cc, cc)
      | no early ↦
          let past : ltb s.resume_grace (now - s.detached_at) ≡ false = ground arith in
          let within : leb (now - s.detached_at) s.resume_grace ≡ true = ground arith in
          inl (omega arith, ground arith, ground arith, ground arith)
    ]
