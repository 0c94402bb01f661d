-- ===== src/Client/Flush.antt =====
-- client.go: Write and flushLoop. Every byte that Write took goes to the server in order.
use Prim.{tt}
use mathlib.Core.Path.{subst}
use pollmux.Base.{
  ℕ, ◌≡◌, ◌≤◌, refl, sym, ap, ◌∙◌, Bool, true, false, not, ◌&&◌, List, [], ◌∷◌, ◌++◌, append_assoc,
  append-nil, Option, none, some, if◌then◌else◌, length, length-take, take, drop, take-append-drop,
  min, arith,
}
use Prim.Native.String.{String}
use pollmux.Pipe.{BufferedPipe}
use pollmux.Stream.{PollEnd}
use pollmux.Client

-- The bytes that Write takes among what others do to an open connection, or a closed one.
abbrev pub taken : Bool → List Client.Act → List ℕ
taken closed [] = []
taken closed (Client.writes bytes ∷ acts) = (if closed then [] else bytes) ++ taken closed acts
taken closed (Client.closes ∷ acts) = taken true acts

abbrev pub all_acts : List Client.Send → List Client.Act
all_acts [] = []
all_acts (s ∷ ss) = s.acts ++ all_acts ss

-- What is to be sent besides the loop's own buffer: what is queued, and what Write is to take.
abbrev pub to_send : Client.HttpConn → List Client.Act → List ℕ
to_send c acts = c.write_buf ++ taken c.closed acts

queue_bytes-batch :
    (c : Client.HttpConn) (bytes : List ℕ) (p : Option BufferedPipe)
    → p ≡ none
    → (Client.queue_bytes c bytes p).0
      ≡ record c { write_buf = c.write_buf ++ bytes; write_flight_on = true }
unfolding Client.queue_bytes
queue_bytes-batch c bytes none e = refl
queue_bytes-batch c bytes (some p) e = absurd (cc e)

empty_length : (bytes : List ℕ) → length bytes ≡ 0 → bytes ≡ []
empty_length [] e = refl
empty_length (b ∷ bytes) e = absurd (omega arith)

-- Write in batch mode.
abbrev Wrote : Client.HttpConn → List ℕ → Client.HttpConn → Type 0
Wrote c bytes c' =
    (c'.write_pipe ≡ none) × (c'.closed ≡ c.closed) × (c'.write_buf ≡ c.write_buf ++ bytes)

write_conn-Wrote :
    (c : Client.HttpConn) (bytes : List ℕ)
    → c.write_pipe ≡ none
    → Wrote c (if c.closed then [] else bytes) (Client.write_conn c bytes).0
unfolding Client.write_conn
write_conn-Wrote c bytes e =
    ground
      (arith, queue_bytes-batch c bytes c.write_pipe e, empty_length bytes, append-nil c.write_buf)

begin_close-closed :
    (c : Client.HttpConn)
    → c.write_pipe ≡ none
    → ((Client.begin_close c).write_pipe ≡ none)
      × ((Client.begin_close c).closed ≡ true)
      × ((Client.begin_close c).write_buf ≡ c.write_buf)
unfolding Client.begin_close
begin_close-closed c e = ground (arith, closed_none c.write_pipe e)
  where
    closed_none : (p : Option BufferedPipe) → p ≡ none → Client.close_option p ≡ none
    closed_none none h = unfold Client.close_option in refl
    closed_none (some p) h = cc h

to_send-apply_acts :
    (c : Client.HttpConn) (acts more : List Client.Act)
    → c.write_pipe ≡ none
    → ((Client.apply_acts c acts).write_pipe ≡ none)
      × (to_send (Client.apply_acts c acts) more ≡ to_send c (acts ++ more))
unfolding Client.apply_acts Client.apply_act
to_send-apply_acts c [] more e = (e, refl)
to_send-apply_acts c (Client.writes bytes ∷ acts) more e =
    let (p, o, b) = write_conn-Wrote c bytes e in
    let (q, t) = to_send-apply_acts (Client.write_conn c bytes).0 acts more p in
    (
      q,
      t
          ∙ rw (b, o)
              (append_assoc c.write_buf (if c.closed then [] else bytes)
                (taken c.closed (acts ++ more))),
    )
to_send-apply_acts c (Client.closes ∷ acts) more e =
    let (p, o, b) = begin_close-closed c e in
    let (q, t) = to_send-apply_acts (Client.begin_close c) acts more p in (q, t ∙ rw (b, o) refl)

-- What the loop's ending leaves of its own buffer.
abbrev pub left : Client.FlushEnd → List ℕ
left Client.flushed = []
left (Client.flush_failed buf) = buf
left (Client.flushing buf) = buf

abbrev pub joined : List (List ℕ) → List ℕ
joined [] = []
joined (x ∷ xs) = x ++ joined xs

abbrev pub AllWithin : ℕ → List (List ℕ) → Type 0
AllWithin n [] = Unit
AllWithin n (x ∷ xs) = (length x ≤ n) × AllWithin n xs

-- Where a run of flushLoop has brought `all`: sent in order, in chunks of the allowed size, and the
-- rest still there. A loop that is done has left nothing, and the next Write starts another.
pub record Sends (max_send_chunk : ℕ) (all : List ℕ) (f : Client.Flushed) : Type 0 where
  pub in_order : joined f.chunks ++ (left f.ending ++ to_send f.conn (all_acts f.rest)) ≡ all
  pub within : AllWithin max_send_chunk f.chunks
  pub idle : f.ending ≡ Client.flushed → (f.conn.write_buf ≡ []) × (f.conn.write_flight_on ≡ false)

on_transport_problem-to_send :
    (owner : Option String) (c : Client.HttpConn) (e : PollEnd) (acts : List Client.Act)
    → to_send (Client.on_transport_problem owner c e) acts ≡ to_send c acts
unfolding Client.on_transport_problem Client.on_session_closed Client.give_way Client.supersede
    Client.fail
on_transport_problem-to_send owner c e acts = ground arith

after_send-Sends :
    (max_send_chunk : ℕ) (k : Client.HttpConn × List ℕ → Client.Flushed) (chunk rest : List ℕ)
    (s : Client.Send) (ss : List Client.Send) (c : Client.HttpConn) (e : Option PollEnd)
    → length chunk ≤ max_send_chunk
    → ((buf : List ℕ) (c' : Client.HttpConn)
        → c'.write_pipe ≡ none
        → (buf ≡ [] → c'.write_buf ≡ [])
        → Sends max_send_chunk (buf ++ to_send c' (all_acts ss)) (k (c', buf)))
    → c.write_pipe ≡ none
    → Sends max_send_chunk
        ((chunk ++ rest) ++ to_send c (all_acts ss))
        (Client.after_send k chunk rest s ss c e)
unfolding Client.after_send
after_send-Sends max_send_chunk k chunk [] s ss c none fits h p =
    let v = h c.write_buf (record c { write_buf = [] }) p (λ z. refl) in
    record {
      in_order =
          append_assoc chunk (joined (k (record c { write_buf = [] }, c.write_buf)).chunks) _
          ∙ ap (λ b. chunk ++ b) v.in_order
          ∙ ap (λ b. b ++ to_send c (all_acts ss)) (sym (append-nil chunk));
      within = (fits, v.within);
      idle = v.idle;
    }
after_send-Sends max_send_chunk k chunk (b ∷ rest) s ss c none fits h p =
    let v = h (b ∷ rest) c p (λ z. cc z) in
    record {
      in_order =
          append_assoc chunk (joined (k (c, b ∷ rest)).chunks) _
          ∙ ap (λ z. chunk ++ z) v.in_order
          ∙ sym (append_assoc chunk (b ∷ rest) _);
      within = (fits, v.within);
      idle = v.idle;
    }
after_send-Sends max_send_chunk k chunk rest s ss c (some e) fits h p = record {
  in_order = ap (λ b. (chunk ++ rest) ++ b) (problem (not c.cancelled && not c.closed));
  within = tt;
  idle = λ i. cc i;
}
  where
    problem :
        (b : Bool)
        → to_send
            (Client.clear_flight (if b then Client.on_transport_problem s.owner c e else c))
            (all_acts ss)
          ≡ to_send c (all_acts ss)
    problem true =
        unfold Client.clear_flight in on_transport_problem-to_send s.owner c e (all_acts ss)
    problem false = unfold Client.clear_flight in refl

send_buffer-Sends :
    (max_send_chunk : ℕ) (c : Client.HttpConn) (buf : List ℕ) (ss : List Client.Send)
    → c.write_pipe ≡ none
    → (buf ≡ [] → c.write_buf ≡ [])
    → Sends max_send_chunk
        (buf ++ to_send c (all_acts ss))
        (Client.send_buffer max_send_chunk (c, buf) ss)
unfolding Client.send_buffer
send_buffer-Sends max_send_chunk c [] ss p h = record {
  in_order = refl;
  within = tt;
  idle = λ e. (h refl, refl);
}
send_buffer-Sends max_send_chunk c (b ∷ buf) [] p h = record {
  in_order = refl;
  within = tt;
  idle = λ e. cc e;
}
send_buffer-Sends max_send_chunk c (b ∷ buf) (s ∷ ss) p h =
    let n = min (length (b ∷ buf)) max_send_chunk in
    let (q, t) = to_send-apply_acts c s.acts (all_acts ss) p in
    subst
      (λ all. Sends max_send_chunk all (Client.send_buffer max_send_chunk (c, b ∷ buf) (s ∷ ss)))
      (ap (λ z. z ++ to_send (Client.apply_acts c s.acts) (all_acts ss))
          (take-append-drop n (b ∷ buf))
        ∙ ap (λ z. (b ∷ buf) ++ z) t)
      (after_send-Sends max_send_chunk (λ next. Client.send_buffer max_send_chunk next ss)
        (take n (b ∷ buf)) (drop n (b ∷ buf)) s ss (Client.apply_acts c s.acts)
        (Client.do_send s.status) (omega (arith, length-take n (b ∷ buf)))
        (λ buf' c' p' h'. send_buffer-Sends max_send_chunk c' buf' ss p' h') q)

-- flushLoop sends what Write took, each byte once and in order, in chunks of at most max_send_chunk
-- bytes, whatever is written meanwhile and wherever a request fails: the requests that the server
-- took, then what the loop still holds, then what is queued and to come, are all that was queued and
-- all that Write took. A loop that is done has left nothing behind, and the next Write starts
-- another. The connection is in batch mode.
pub flush_loop-Sends :
    (max_send_chunk : ℕ) (c : Client.HttpConn) (window : List Client.Act) (ss : List Client.Send)
    → c.write_pipe ≡ none
    → Sends max_send_chunk
        (to_send c (window ++ all_acts ss))
        (Client.flush_loop max_send_chunk c window ss)
unfolding Client.flush_loop
flush_loop-Sends max_send_chunk c window ss p =
    let now = Client.apply_acts c window in
    let (q, t) = to_send-apply_acts c window (all_acts ss) p in
    subst (λ all. Sends max_send_chunk all (Client.flush_loop max_send_chunk c window ss)) t
      (either now.cancelled (
        send_buffer-Sends max_send_chunk (record now { write_buf = [] }) now.write_buf ss q
          (λ z. refl)))
  where
    either :
        (stop : Bool)
        → Sends max_send_chunk
            (to_send (Client.apply_acts c window) (all_acts ss))
            (Client.send_buffer max_send_chunk (Client.refill (Client.apply_acts c window) []) ss)
        → Sends max_send_chunk (to_send (Client.apply_acts c window) (all_acts ss)) (
            if stop
            then record {
              conn = Client.clear_flight (Client.apply_acts c window);
              chunks = [];
              ending = Client.flush_failed [];
              rest = ss;
            }
            else Client.send_buffer max_send_chunk
                (Client.refill (Client.apply_acts c window) [])
                ss)
    either true v =
        unfold Client.clear_flight in record { in_order = refl; within = tt; idle = λ e. cc e }
    either false v = v
