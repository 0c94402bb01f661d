-- ===== src/Client/Runs.antt =====
-- Concrete runs of client.go, and its theorems at concrete inputs.
use pollmux.Base.{◌≡◌, refl, true, false, List, [], ◌∷◌, ◌++◌, none, some, inl, inr}
use pollmux.Pipe.{new_buffered_pipe}
use pollmux.Frame.Codec.{source}
use pollmux.Stream.{response}
use pollmux.Upload.{send_refused}
use pollmux.Client
use pollmux.Client.Ending.{IsSound, Explained, loops-Explained}
use pollmux.Client.Flush.{Sends, to_send, all_acts, flush_loop-Sends}

abbrev connected : Client.HttpConn
connected = record {
  session_id = "s1";
  read_pipe = new_buffered_pipe;
  write_pipe = none;
  write_buf = 1 ∷ 2 ∷ 3 ∷ [];
  write_flight_on = true;
  transport_failed = false;
  session_superseded = false;
  closed = false;
  cancelled = false;
}

-- Three bytes queued, a fourth written during the first request, chunks of two; the last is refused.
abbrev three_sends : List Client.Send
three_sends =
    record { acts = Client.writes (4 ∷ []) ∷ []; status = some 200; owner = some "s1" }
    ∷ record { acts = []; status = some 204; owner = some "s1" }
    ∷ record { acts = []; status = some 413; owner = some "s1" }
    ∷ []

flush_chunks : (Client.flush_loop 2 connected [] three_sends).chunks ≡ (1 ∷ 2 ∷ []) ∷ (3 ∷ []) ∷ []
unfolding Client.flush_loop Client.send_buffer Client.do_send Client.apply_acts Client.apply_act
    Client.write_conn
flush_chunks = refl

-- The session is gone, and the connector has another one by then.
abbrev replaced_round : List Client.Round
replaced_round =
    record { acts = []; answer = response 410 (source [] false); owner = some "s2"; pause = [] }
    ∷ []

poll_replaced : (Client.poll_loop 64 false connected replaced_round).0.session_superseded ≡ true
unfolding Client.poll_loop Client.do_poll Client.apply_acts Client.is_session_closed_err
    Client.on_session_closed Client.is_replaced Client.give_way Client.supersede
poll_replaced = refl

nothing_yet : IsSound connected
nothing_yet (inl e) = cc e
nothing_yet (inr e) = cc e

loops-Explained_example :
    Explained (Client.poll_loop 64 false connected replaced_round)
    × Explained (Client.poll_loop_stream 64 connected replaced_round)
    × Explained (
        Client.send_loop_stream connected
          (record { acts = []; sent = send_refused 410; owner = none } ∷ []))
loops-Explained_example =
    loops-Explained 64 false connected replaced_round
      (record { acts = []; sent = send_refused 410; owner = none } ∷ []) nothing_yet

flush_loop-Sends_example :
    Sends 2
      (to_send connected ([] ++ all_acts three_sends))
      (Client.flush_loop 2 connected [] three_sends)
flush_loop-Sends_example = flush_loop-Sends 2 connected [] three_sends refl
