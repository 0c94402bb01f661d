-- ===== src/Polling/Runs.antt =====
-- A concrete run of PollHandler, and its theorem at a concrete input.
use pollmux.Base.{◌≡◌, refl, true, false, [], ◌∷◌, ◌==◌, if◌then◌else◌, pos}
use pollmux.Reliable.{new_reliable}
use pollmux.Session.{
  new_session, enable_resume, begin_poll, touch, end_poll, resume_expired, note_detached,
}
use pollmux.Store.{SessionStore, Heap, lookup, get, update}
use pollmux.Polling.{
  PollRequest, serve_poll, poll_found, poll_begun, poll_left, routed, route, resumable_route,
  bad_direction, whole_body,
}

-- Session 1 is resumable, and negotiated neither numbered batches nor streams.
abbrev heap : Heap
heap p =
    if p == 0 then new_session "a0" [] 100 else enable_resume (new_session "a1" [] 150) (pos 64) 30

abbrev store : SessionStore
store = record { heap = heap; sessions = ("a0", 0) ∷ ("a1", 1) ∷ []; max_detached_resumable = 4 }

-- An upload without offsets.
abbrev upload : PollRequest
upload = record {
  headers = record { send_stream = false; send_only = true; receive_only = false };
  body = whole_body (8 ∷ 9 ∷ []);
  wakes = [];
  run = λ t. t;
  now = 151;
  later = 152;
}

serve_poll-refuses : (serve_poll 16 store "a1" upload).1 ≡ bad_direction
unfolding serve_poll poll_found poll_begun poll_left routed route resumable_route get lookup update
    begin_poll touch end_poll resume_expired note_detached new_session enable_resume new_reliable
serve_poll-refuses = refl
