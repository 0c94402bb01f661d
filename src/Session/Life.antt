-- ===== src/Session/Life.antt =====
-- session.go: a session's counters over any interleaving of its handlers.
use pollmux.Base.{
  ℕ, suc, ◌+◌, ◌≤◌, ◌≡◌, sym, ap, ◌∙◌, Bool, true, false, ℤ, pos, incr, decr, ◌⊎◌, arith, inl, inr,
}
use pollmux.Session.{
  Session, begin_poll, end_poll, begin_websocket, end_websocket, close_once, mark_closed, touch,
  note_detached,
}

-- A session with the poll and WebSocket handlers that are between their begin and their end, and how
-- many closes were told that they were the one.
pub record Life : Type 0 where
  pub session : Session
  pub polls : ℕ
  pub sockets : ℕ
  pub wins : ℕ

abbrev pub count : Bool → ℕ
count true = 1
count false = 0

-- A handler ends only what it began. Closing is closeOnce, or markClosedLocked by the store.
pub data Step : Life → Life → Type 0 where
  begins :
      (l : Life) (now : ℕ)
      → Step l (record l {
        session = (begin_poll l.session now).0;
        polls = l.polls + count (begin_poll l.session now).1;
      })
  ends :
      (l : Life) (n now : ℕ)
      → l.polls ≡ suc n
      → Step l (record l { session = end_poll l.session now; polls = n })
  begins_websocket :
      (l : Life) (now : ℕ)
      → Step l (record l {
        session = (begin_websocket l.session now).0;
        sockets = l.sockets + count (begin_websocket l.session now).1;
      })
  ends_websocket :
      (l : Life) (n now : ℕ)
      → l.sockets ≡ suc n
      → Step l (record l { session = end_websocket l.session now; sockets = n })
  closes :
      (l : Life)
      → Step l (record l {
        session = (close_once l.session).0;
        wins = l.wins + count (close_once l.session).1;
      })
  marks :
      (l : Life)
      → Step l (record l {
        session = (mark_closed l.session).0;
        wins = l.wins + count (mark_closed l.session).1;
      })
  touches : (l : Life) (now : ℕ) → Step l (record l { session = touch l.session now })

pub data Reach (l : Life) : Life → Type 0 where
  start : Reach l l
  next : {m n : Life} → Reach l m → Step m n → Reach l n

pub record IsBalanced (l : Life) : Type 0 where
  pub counted : l.session.poll_in_flight ≡ pos (l.polls + l.sockets)
  pub attached : l.sockets ≡ count l.session.ws_attached
  pub won : l.wins ≡ count l.session.closed

incr_pos : (z : ℤ) (k : ℕ) → z ≡ pos k → incr z ≡ pos (k + 1)
unfolding incr
incr_pos z k h = ap incr h ∙ ap pos (omega arith)

decr_pos : (z : ℤ) (k n : ℕ) → z ≡ pos k → k ≡ suc n → decr z ≡ pos n
unfolding decr
decr_pos z k n h e = ap decr (h ∙ ap pos e)

note_detached_keeps :
    (s : Session) (now : ℕ)
    → ((note_detached s now).poll_in_flight ≡ s.poll_in_flight)
      × ((note_detached s now).ws_attached ≡ s.ws_attached)
      × ((note_detached s now).closed ≡ s.closed)
unfolding note_detached
note_detached_keeps s now = (ground arith, ground arith, ground arith)

begin_poll_cases :
    (s : Session) (now : ℕ)
    → (begin_poll s now ≡ (s, false))
      ⊎ (begin_poll s now ≡ (record s { poll_in_flight = incr s.poll_in_flight }, true))
unfolding begin_poll
begin_poll_cases s now = ground arith

begin_websocket_cases :
    (s : Session) (now : ℕ)
    → (begin_websocket s now ≡ (s, false))
      ⊎ ((begin_websocket s now
            ≡ (record s { ws_attached = true; poll_in_flight = incr s.poll_in_flight }, true))
          × (s.ws_attached ≡ false))
unfolding begin_websocket
begin_websocket_cases s now = ground arith

close_once_keeps :
    (s : Session)
    → ((close_once s).0.poll_in_flight ≡ s.poll_in_flight)
      × ((close_once s).0.ws_attached ≡ s.ws_attached)
      × ((close_once s).0.closed ≡ true)
      × (count s.closed + count (close_once s).1 ≡ 1)
unfolding close_once
close_once_keeps s = (ground arith, ground arith, ground arith, ground arith)

mark_closed_keeps :
    (s : Session)
    → ((mark_closed s).0.poll_in_flight ≡ s.poll_in_flight)
      × ((mark_closed s).0.ws_attached ≡ s.ws_attached)
      × ((mark_closed s).0.closed ≡ true)
      × (count s.closed + count (mark_closed s).1 ≡ 1)
unfolding mark_closed
mark_closed_keeps s = (ground arith, ground arith, ground arith, ground arith)

count_le : (b : Bool) → count b ≤ 1
count_le b = ground arith

Step-IsBalanced : {l m : Life} → Step l m → IsBalanced l → IsBalanced m
Step-IsBalanced (begins l now) v = elim (begin_poll_cases l.session now) [
  | inl e ↦
      rw e
        (record { counted = v.counted ∙ ap pos (omega arith); attached = v.attached; won = v.won })
  | inr e ↦ rw e (record {
    counted =
        incr_pos l.session.poll_in_flight (l.polls + l.sockets) v.counted ∙ ap pos (omega arith);
    attached = v.attached;
    won = v.won;
  })
]
Step-IsBalanced (ends l n now p) v =
    let kept =
      note_detached_keeps (record l.session { poll_in_flight = decr l.session.poll_in_flight })
        now in
    unfold end_poll in
    record {
      counted =
          kept.0
          ∙ decr_pos l.session.poll_in_flight (l.polls + l.sockets) (n + l.sockets) v.counted
              (omega arith);
      attached = v.attached ∙ ap count (sym kept.1);
      won = v.won ∙ ap count (sym kept.2);
    }
Step-IsBalanced (begins_websocket l now) v = elim (begin_websocket_cases l.session now) [
  | inl e ↦ rw e (record {
    counted = v.counted ∙ ap pos (omega arith);
    attached = omega (arith, v.attached);
    won = v.won;
  })
  | inr (e, free) ↦ rw e (record {
    counted =
        incr_pos l.session.poll_in_flight (l.polls + l.sockets) v.counted ∙ ap pos (omega arith);
    attached = omega (arith, v.attached, ap count free);
    won = v.won;
  })
]
Step-IsBalanced (ends_websocket l n now p) v =
    let kept =
      note_detached_keeps
        (record l.session { ws_attached = false; poll_in_flight = decr l.session.poll_in_flight })
        now in
    unfold end_websocket in
    record {
      counted =
          kept.0
          ∙ decr_pos l.session.poll_in_flight (l.polls + l.sockets) (l.polls + n) v.counted
              (omega arith);
      attached =
          let none_left : n ≡ count false =
            omega (arith, p, v.attached, count_le l.session.ws_attached) in
          none_left ∙ ap count (sym kept.1);
      won = v.won ∙ ap count (sym kept.2);
    }
Step-IsBalanced (closes l) v =
    let kept = close_once_keeps l.session in
    record {
      counted = kept.0 ∙ v.counted;
      attached = v.attached ∙ ap count (sym kept.1);
      won = ground (arith, kept, v.won);
    }
Step-IsBalanced (marks l) v =
    let kept = mark_closed_keeps l.session in
    record {
      counted = kept.0 ∙ v.counted;
      attached = v.attached ∙ ap count (sym kept.1);
      won = ground (arith, kept, v.won);
    }
Step-IsBalanced (touches l now) v =
    unfold touch in record { counted = v.counted; attached = v.attached; won = v.won }

-- Over any interleaving of polls, WebSocket attachments, closes and the store's evictions: pollInFlight
-- is exactly the number of handlers between their begin and their end, and so is never negative; at
-- most one of them is a WebSocket, and `wsAttached` says whether there is one; and of all the calls
-- that close the session exactly one is told that it did, once it is closed.
pub Reach-IsBalanced : {l m : Life} → IsBalanced l → Reach l m → IsBalanced m
Reach-IsBalanced v start = v
Reach-IsBalanced v (next r st) = Step-IsBalanced st (Reach-IsBalanced v r)
