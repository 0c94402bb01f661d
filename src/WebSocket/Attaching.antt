-- ===== src/WebSocket/Attaching.antt =====
-- websocket.go: WebSocketHandler's hold on the session.
use pollmux.Base.{
  ℕ, ◌≡◌, refl, ap, ◌∙◌, Bool, true, false, not, ◌&&◌, ◌||◌, ◌⊎◌, inl, inr, incr, decr-incr,
  Bool-cases, if◌then◌else◌, arith,
}
use pollmux.Session.{
  Session, is_set, resume_expired, refuses_attach, begin_websocket, end_websocket, note_detached,
  touch,
}
use pollmux.WebSocket.{
  WsReply, WsRequest, ws_refused, not_upgraded, replaced_at_once, attachment_ended, ws_upgraded,
  ws_left, ws_begun, reset_layer, waited, serve_websocket,
}

-- What the answer says of the session: `o` is as the request found it, `s` as it is behind attach.
abbrev pub Says : Session → Session → WsRequest → WsReply → Type 0
Says o s q (ws_refused status) =
    ((status ≡ 400) × (o.websocket ≡ false))
    ⊎ (((status ≡ 503) × (is_set o.rs ≡ true) × (q.attached ≡ false))
        ⊎ (((status ≡ 410) × (refuses_attach s q.now ≡ true))
            ⊎ ((status ≡ 409) × (refuses_attach s q.now ≡ false) × (s.ws_attached ≡ true))))
Says o s q not_upgraded = (q.accepted ≡ false) × (refuses_attach s q.now ≡ false)
Says o s q replaced_at_once = (q.current ≡ false) × (is_set s.rs ≡ true)
Says o s q attachment_ended = (refuses_attach s q.now ≡ false) × (s.ws_attached ≡ false)

-- The session afterwards counts the transports that `s` does, and the answer is true.
abbrev pub Released : Session → Session → WsRequest → Session × WsReply → Type 0
Released o s q (t, reply) =
    (t.poll_in_flight ≡ s.poll_in_flight) × (t.ws_attached ≡ s.ws_attached) × Says o s q reply

-- What others do while the WebSocket is attached: whoever else attached has left.
abbrev pub LeavesCounts : WsRequest → Type 0
LeavesCounts q =
    (t : Session)
    → ((q.run t).poll_in_flight ≡ t.poll_in_flight) × ((q.run t).ws_attached ≡ t.ws_attached)

left-Released :
    (o s : Session) (q : WsRequest) (x : Session × WsReply) (later : ℕ)
    → x.0.poll_in_flight ≡ incr s.poll_in_flight
    → s.ws_attached ≡ false
    → Says o s q x.1
    → Released o s q (ws_left x later)
unfolding ws_left end_websocket note_detached
left-Released o s q (t, reply) later e a y =
    (ground (arith, decr-incr s.poll_in_flight), ground arith, y)

-- The session as attaching leaves it.
abbrev attached : Session → WsRequest → Session
attached s q = touch (record s { ws_attached = true; poll_in_flight = incr s.poll_in_flight }) q.now

abbrev Kept : Session → Session → WsRequest → Session → Session × WsReply → Type 0
Kept o s q t (u, reply) = (u.poll_in_flight ≡ t.poll_in_flight) × Says o s q reply

-- The handler between beginWebSocket and endWebSocket, on a session `t` that is `s` attached.
upgraded-Says :
    (o s t : Session) (q : WsRequest)
    → LeavesCounts q
    → t.rs ≡ s.rs
    → refuses_attach s q.now ≡ false
    → s.ws_attached ≡ false
    → Kept o s q t (ws_upgraded t q)
unfolding ws_upgraded reset_layer
upgraded-Says o s t q h e r a = cases q.accepted (is_set t.rs && not q.current) refl refl
  where
    cases :
        (b c : Bool)
        → q.accepted ≡ b
        → (is_set t.rs && not q.current) ≡ c
        → Kept o s q t (
            if not b
            then (t, not_upgraded)
            else if c
            then (t, replaced_at_once)
            else (q.run (reset_layer t), attachment_ended))
    cases false c p z = (refl, (p, r))
    cases true true p z = (refl, ground (arith, ap is_set e))
    cases true false p z = (unfold reset_layer in (h (reset_layer t)).0, (r, a))

begun-Released :
    (o s : Session) (q : WsRequest)
    → LeavesCounts q
    → Released o s q (ws_begun (begin_websocket s q.now) q)
unfolding ws_begun begin_websocket
begun-Released o s q h = elim (Bool-cases (s.closed || (s.ws_attached || resume_expired s q.now))) [
  | inl e ↦ simp e (refused (refuses_attach s q.now) refl e)
  | inr e ↦ simp e (attaching e)
]
  where
    refused :
        (b : Bool)
        → refuses_attach s q.now ≡ b
        → s.closed || (s.ws_attached || resume_expired s q.now) ≡ true
        → Released o s q (if b then (s, ws_refused 410) else (s, ws_refused 409))
    refused true r e = (refl, refl, inr (inr (inl (refl, r))))
    refused false r e =
        (refl, refl, inr (inr (inr (refl, r, unfold refuses_attach in ground arith))))

    attaching :
        s.closed || (s.ws_attached || resume_expired s q.now) ≡ false
        → Released o s q (ws_left (ws_upgraded (attached s q) q) q.later)
    attaching e =
        let whole : refuses_attach s q.now ≡ false = unfold refuses_attach in ground arith in
        let free : s.ws_attached ≡ false = ground arith in
        let (c, y) = upgraded-Says o s (attached s q) q h (unfold touch in refl) whole free in
        left-Released o s q (ws_upgraded (attached s q) q) q.later (c ∙ unfold touch in refl) free y

-- The session as the handler goes on with it: behind attach, if it gets there.
abbrev pub met : Session → WsRequest → Session
met s q = if s.websocket then if is_set s.rs then q.waits s else s else s

-- WebSocketHandler on every path: its answer is true (400 for a session of another transport, 503 where
-- the last transport of a resumable one did not leave in time; and of the session as it is once attach
-- has displaced the last transport: 410 only if it admits nobody, 409 only if a WebSocket still stands
-- in it), and afterwards the session counts the transports and WebSockets that it had then, this one
-- gone. Whoever attaches to it while this one is attached has left by then.
pub serve_websocket-Released :
    (s : Session) (q : WsRequest) → LeavesCounts q → Released s (met s q) q (serve_websocket s q)
unfolding serve_websocket waited
serve_websocket-Released s q h = refused s.websocket (is_set s.rs) q.attached refl refl refl
  where
    refused :
        (b c d : Bool)
        → s.websocket ≡ b
        → is_set s.rs ≡ c
        → q.attached ≡ d
        → Released s (if b then if c then q.waits s else s else s) q (
            if not b
            then (s, ws_refused 400)
            else if c && not d
            then (if c then q.waits s else s, ws_refused 503)
            else ws_begun (begin_websocket (if c then q.waits s else s) q.now) q)
    refused false c d e f g = (refl, refl, inl (refl, e))
    refused true true false e f g = (refl, refl, inr (inl (refl, f, g)))
    refused true true true e f g = begun-Released s (q.waits s) q h
    refused true false d e f g = begun-Released s s q h
