-- ===== src/Resume/Runs.antt =====
-- resume_server.go: a resume at work. Three bytes were sent, one is acknowledged, and the client names
-- two.

use pollmux.Base.{ℕ, refl, true, false, List, [], ◌∷◌, none, some, arith, pos, incr, decr}
use pollmux.Reliable.{Reliable}
use pollmux.Reliable.Sender.{Sends}
use pollmux.Attach.{Attachments, Wait}
use pollmux.Session.{Session, new_session, end_poll, note_detached, touch}
use pollmux.Resume.{handshake, resume_session}
use pollmux.Resume.Handshake.{Judged, handshake-Judged, Balanced, resume_session-Balanced}

abbrev layer : Reliable
layer = record {
  send_offset = 3;
  acked_offset = 1;
  sent_cursor = 3;
  replay = 6 ∷ 7 ∷ [];
  max_replay = 8;
  broken = false;
  recv_offset = 40;
  last_ack = 40;
  ack_eager = 0;
}

abbrev sent : List ℕ
sent = 5 ∷ 6 ∷ 7 ∷ []

layer-Sends : Sends layer sent
layer-Sends = record {
  counted = refl;
  fits = omega arith;
  acked_le = omega arith;
  cursor_le = omega arith;
  kept = refl;
  bounded = omega arith;
}

abbrev polled : Attachments
polled = record { down = some 4; up = none; resuming = false }

abbrev session : Session
session = record (new_session "aa" [] 5) {
  rs = some layer;
  att = some polled;
  poll_in_flight = pos 1;
  resume_grace = 30;
}

handshake-Judged_example :
    Judged sent sent 2
      (handshake layer polled 2 (record { meanwhile = λ a. a; left = true } ∷ []) (λ r. r))
handshake-Judged_example =
    handshake-Judged sent sent 2 layer polled (record { meanwhile = λ a. a; left = true } ∷ [])
      (λ r. r) layer-Sends layer-Sends

-- Its poll leaves while the resume waits.
abbrev poll_leaves : List Wait
poll_leaves = record { meanwhile = λ a. record a { down = none }; left = true } ∷ []

resume_session-Balanced_example :
    Balanced session
      (λ s. end_poll s 8)
      6
      9
      (pos 0)
      (resume_session session 2 poll_leaves (λ r. r) (λ s. end_poll s 8) 6 9)
resume_session-Balanced_example =
    resume_session-Balanced sent sent 2 session layer polled poll_leaves (λ r. r)
      (λ s. end_poll s 8) 6 9 (pos 0) refl refl layer-Sends layer-Sends
      (unfold end_poll note_detached touch new_session incr decr in refl)
