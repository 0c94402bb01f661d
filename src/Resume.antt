-- ===== src/Resume.antt =====
-- ResumeHandler of resume_server.go. While it waits for the old transports to leave, their handlers go
-- on: what they do to the attachments stands in the waits, what they do to the layer is `meanwhile`, and
-- what they and everybody else do to the rest of the session, from this request's beginPoll to its
-- endPoll, is `others`: their own endPoll, a close, bytes in the pipes.
pub mod Handshake
mod Runs
use Prim.Native.String.{String}
use pollmux.Base.{
  ℕ, Bool, true, false, not, List, Option, none, some, ℤ, pos, negsuc, ◌==◌, if◌then◌else◌,
}
use pollmux.Reliable.{Reliable, resume_out, mark_broken}
use pollmux.Attach.{Attachments, Wait, begin_resume, end_resume, kick_all}
use pollmux.Session.{Session, begin_poll, end_poll, touch}
use pollmux.Config.{is_protocol_version}
use pollmux.Store.{SessionStore, get, update}

pub record ResumeRequest : Type 0 where
  pub protocol_version : ℤ
  pub recv_offset : ℕ

-- An error status, or 200 with the count of upstream bytes received.
pub data Reply : Type 0 where
  refuses : ℕ → Reply
  resumed : ℕ → Reply

-- The offset exchange, once both directions are free.
unfoldable pub exchange :
    Option (Reliable × Bool) → Attachments → Option (Reliable × Attachments × Reply)
exchange none a = none
exchange (some (r, true)) a = some (r, end_resume a, resumed r.recv_offset)
exchange (some (r, false)) a = some (mark_broken r, end_resume a, refuses 409)

unfoldable pub after_kick :
    Reliable → ℕ → Attachments × Bool → Option (Reliable × Attachments × Reply)
after_kick r off (a, false) = some (r, end_resume a, refuses 503)
after_kick r off (a, true) = exchange (resume_out r off) a

unfoldable pub after_claim :
    Reliable
    → ℕ
    → List Wait
    → (Reliable → Reliable)
    → Attachments × Bool
    → Option (Reliable × Attachments × Reply)
after_claim r off ws meanwhile (a, false) = some (r, a, refuses 503)
after_claim r off ws meanwhile (a, true) = after_kick (meanwhile r) off (kick_all a ws)

-- From isBroken on.
unfoldable pub handshake :
    Reliable
    → Attachments
    → ℕ
    → List Wait
    → (Reliable → Reliable)
    → Option (Reliable × Attachments × Reply)
handshake r a off ws meanwhile =
    if r.broken then some (r, a, refuses 409) else after_claim r off ws meanwhile (begin_resume a)

-- The deferred endPoll, at the time of the answer.
unfoldable pub put_back :
    Session
    → (Session → Session)
    → ℕ
    → Option (Reliable × Attachments × Reply)
    → Option (Session × Reply)
put_back s others later none = none
put_back s others later (some (r, a, reply)) =
    some (end_poll (record (others s) { rs = some r; att = some a }) later, reply)

-- `none` is a nil dereference, or a slice out of its bounds.
unfoldable pub begun :
    Option Reliable
    → Option Attachments
    → ℕ
    → List Wait
    → (Reliable → Reliable)
    → (Session → Session)
    → ℕ
    → ℕ
    → Session × Bool
    → Option (Session × Reply)
begun rs att off ws meanwhile others now later (s, false) = some (s, refuses 410)
begun none att off ws meanwhile others now later (s, true) = none
begun (some r) none off ws meanwhile others now later (s, true) = none
begun (some r) (some a) off ws meanwhile others now later (s, true) =
    put_back (touch s now) others later (handshake r a off ws meanwhile)

-- From the test on s.rs on.
unfoldable pub entered :
    Option Reliable
    → Option Attachments
    → Session
    → ℕ
    → List Wait
    → (Reliable → Reliable)
    → (Session → Session)
    → ℕ
    → ℕ
    → Option (Session × Reply)
entered none att s off ws meanwhile others now later = some (s, refuses 409)
entered (some r) att s off ws meanwhile others now later =
    begun (some r) att off ws meanwhile others now later (begin_poll s now)

unfoldable pub resume_session :
    Session
    → ℕ
    → List Wait
    → (Reliable → Reliable)
    → (Session → Session)
    → ℕ
    → ℕ
    → Option (Session × Reply)
resume_session s off ws meanwhile others now later =
    entered s.rs s.att s off ws meanwhile others now later

stored : SessionStore → ℕ → Option (Session × Reply) → Option (SessionStore × Reply)
stored st p none = none
stored st p (some (s, reply)) = some (record st { heap = update st.heap p s }, reply)

unfoldable pub found :
    SessionStore
    → Option ℕ
    → Option ResumeRequest
    → List Wait
    → (Reliable → Reliable)
    → (Session → Session)
    → ℕ
    → ℕ
    → Option (SessionStore × Reply)
unfolding stored
found st none req ws meanwhile others now later = some (st, refuses 404)
found st (some p) none ws meanwhile others now later = some (st, refuses 400)
found st (some p) (some req) ws meanwhile others now later =
    if not (is_protocol_version req.protocol_version)
    then some (st, refuses 426)
    else stored st p (resume_session (st.heap p) req.recv_offset ws meanwhile others now later)

-- ResumeHandler's function; no request is one that does not decode.
unfoldable pub resume :
    SessionStore
    → String
    → Option ResumeRequest
    → List Wait
    → (Reliable → Reliable)
    → (Session → Session)
    → ℕ
    → ℕ
    → Option (SessionStore × Reply)
resume st id req ws meanwhile others now later =
    found st (get st id) req ws meanwhile others now later
