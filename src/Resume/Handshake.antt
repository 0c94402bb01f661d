-- ===== src/Resume/Handshake.antt =====
-- resume_server.go: what a resume's answer says of the layer.
use pollmux.Base.{
  ℕ, ◌≤◌, ◌≡◌, refl, ◌∙◌, ◌⊎◌, inl, inr, Bool, true, false, List, Option, none, some, arith,
  Bool-cases, incr, decr, decr-incr, ◌||◌, ℤ, ap, is_zero,
}
use pollmux.Reliable.{Reliable, resume_out, mark_broken}
use pollmux.Reliable.Sender.{Sends, mark_broken-Sends, resume_out_lem}
use pollmux.Attach.{Attachments, Wait, begin_resume, end_resume, kick_all}
use pollmux.Session.{
  Session, begin_poll, end_poll, touch, note_detached, resume_expired, refuses_attach,
}
use pollmux.Resume.{
  Reply, refuses, resumed, exchange, after_kick, after_claim, handshake, put_back, begun, entered,
  resume_session,
}

-- Behind a 200 the layer is whole and replays from exactly the client's offset, and the answer is the
-- server's own count; behind a 409 the layer is broken; else the client shall try again.
abbrev pub Judged : List ℕ → List ℕ → ℕ → Option (Reliable × Attachments × Reply) → Type 0
Judged sent later off none = ⊥
Judged sent later off (some (r, a, resumed n)) =
    Sends r later
    × (r.broken ≡ false)
    × (r.acked_offset ≡ off)
    × (r.sent_cursor ≡ off)
    × (off ≤ r.send_offset)
    × (n ≡ r.recv_offset)
    × (a.resuming ≡ false)
Judged sent later off (some (r, a, refuses status)) =
    (Sends r sent ⊎ Sends r later) × (((status ≡ 409) × (r.broken ≡ true)) ⊎ (status ≡ 503))

exchange-Judged :
    (sent later : List ℕ) (off : ℕ) (r : Reliable) (a : Attachments)
    → Sends r later
    → Judged sent later off (exchange (resume_out r off) a)
unfolding exchange end_resume
exchange-Judged sent later off r a v = elim (resume_out_lem r later v off) [
  | inl h ↦ rw (h.0) (inr (mark_broken-Sends r later v), inl (refl, unfold mark_broken in refl))
  | inr h ↦ rw (h.1) (h.2, h.3, h.4, h.5, omega (arith, h.6, h.10), refl, refl)
]

after_kick-Judged :
    (sent later : List ℕ) (off : ℕ) (r : Reliable) (k : Attachments × Bool)
    → Sends r later
    → Judged sent later off (after_kick r off k)
unfolding after_kick
after_kick-Judged sent later off r (a, false) v = (inr v, inr refl)
after_kick-Judged sent later off r (a, true) v = exchange-Judged sent later off r a v

after_claim-Judged :
    (sent later : List ℕ) (off : ℕ) (r : Reliable) (ws : List Wait)
    (meanwhile : Reliable → Reliable) (k : Attachments × Bool)
    → Sends r sent
    → Sends (meanwhile r) later
    → Judged sent later off (after_claim r off ws meanwhile k)
unfolding after_claim
after_claim-Judged sent later off r ws meanwhile (a, false) v w = (inl v, inr refl)
after_claim-Judged sent later off r ws meanwhile (a, true) v w =
    after_kick-Judged sent later off (meanwhile r) (kick_all a ws) w

-- A handshake never panics, whatever offset the client names, and its answer is true of the layer it
-- leaves, as Judged has it. `sent` was sent by then, and `later` by the end of the wait; both layers
-- are well formed.
pub handshake-Judged :
    (sent later : List ℕ) (off : ℕ) (r : Reliable) (a : Attachments) (ws : List Wait)
    (meanwhile : Reliable → Reliable)
    → Sends r sent
    → Sends (meanwhile r) later
    → Judged sent later off (handshake r a off ws meanwhile)
unfolding handshake
handshake-Judged sent later off r a ws meanwhile v w = elim (Bool-cases r.broken) [
  | inl e ↦ simp e (inl v, inl (refl, refl))
  | inr e ↦ simp e (after_claim-Judged sent later off r ws meanwhile (begin_resume a) v w)
]

-- The session with this request attached.
abbrev pub attached : Session → ℕ → Session
attached s now = touch (record s { poll_in_flight = incr s.poll_in_flight }) now

-- What the request leaves of the session, where `m` transports besides it are attached in the end.
abbrev pub Balanced : Session → (Session → Session) → ℕ → ℕ → ℤ → Option (Session × Reply) → Type 0
Balanced s others now end m none = ⊥
Balanced s others now end m (some (t, reply)) =
    ((refuses_attach s now ≡ true) × (reply ≡ refuses 410) × (t ≡ s))
    ⊎ ((refuses_attach s now ≡ false)
        × (t.poll_in_flight ≡ m)
        × (t.closed ≡ (others (attached s now)).closed)
        × (is_zero m ≡ true → t.detached_at ≡ end))

put_back-Balanced :
    (sent later : List ℕ) (off : ℕ) (s : Session) (others : Session → Session) (now end : ℕ) (m : ℤ)
    (o : Option (Reliable × Attachments × Reply))
    → refuses_attach s now ≡ false
    → (others (attached s now)).poll_in_flight ≡ incr m
    → Judged sent later off o
    → Balanced s others now end m (put_back (attached s now) others end o)
unfolding put_back end_poll note_detached
put_back-Balanced sent later off s others now end m none h c j = j
put_back-Balanced sent later off s others now end m (some (r, a, reply)) h c j =
    let count : decr (others (attached s now)).poll_in_flight ≡ m = ap decr c ∙ decr-incr m in
    inr (h, ground (arith, count), ground arith, λ z. ground (arith, count, z))

begun-Balanced :
    (sent later : List ℕ) (off : ℕ) (s : Session) (r : Reliable) (a : Attachments) (ws : List Wait)
    (meanwhile : Reliable → Reliable) (others : Session → Session) (now end : ℕ) (m : ℤ)
    → Sends r sent
    → Sends (meanwhile r) later
    → (others (attached s now)).poll_in_flight ≡ incr m
    → Balanced s others now end m
        (begun (some r) (some a) off ws meanwhile others now end (begin_poll s now))
unfolding begun begin_poll
begun-Balanced sent later off s r a ws meanwhile others now end m v w c =
    elim (Bool-cases (s.closed || resume_expired s now)) [
      | inl e ↦ simp e (inl (unfold refuses_attach in e, refl, refl))
      | inr e ↦ simp e (
          put_back-Balanced sent later off s others now end m (handshake r a off ws meanwhile)
            (unfold refuses_attach in e) c (handshake-Judged sent later off r a ws meanwhile v w))
    ]

entered-Balanced :
    (sent later : List ℕ) (off : ℕ) (s : Session) (r : Reliable) (a : Attachments)
    (rs : Option Reliable) (att : Option Attachments) (ws : List Wait)
    (meanwhile : Reliable → Reliable) (others : Session → Session) (now end : ℕ) (m : ℤ)
    → rs ≡ some r
    → att ≡ some a
    → Sends r sent
    → Sends (meanwhile r) later
    → (others (attached s now)).poll_in_flight ≡ incr m
    → Balanced s others now end m (entered rs att s off ws meanwhile others now end)
unfolding entered
entered-Balanced sent later off s r a rs att ws meanwhile others now end m e f v w c =
    rw (e, f) (begun-Balanced sent later off s r a ws meanwhile others now end m v w c)

-- A resume of a session that has the reliable layer always gets an answer, whatever the handlers that it
-- kicks and everybody else do to the session meanwhile. If the session admits nobody it is 410, and
-- nothing has changed. Else the request leaves no trace of its own attachment: if `m` transports
-- besides it are attached in the end, the session counts `m`; a close by others stands; and if `m` is 0
-- the grace runs from the end of the request. The layer is well formed before and after the wait.
pub resume_session-Balanced :
    (sent later : List ℕ) (off : ℕ) (s : Session) (r : Reliable) (a : Attachments) (ws : List Wait)
    (meanwhile : Reliable → Reliable) (others : Session → Session) (now end : ℕ) (m : ℤ)
    → s.rs ≡ some r
    → s.att ≡ some a
    → Sends r sent
    → Sends (meanwhile r) later
    → (others (attached s now)).poll_in_flight ≡ incr m
    → Balanced s others now end m (resume_session s off ws meanwhile others now end)
unfolding resume_session
resume_session-Balanced sent later off s r a ws meanwhile others now end m rs att v w c =
    entered-Balanced sent later off s r a s.rs s.att ws meanwhile others now end m rs att v w c
