-- ===== src/Store/Runs.antt =====
-- Concrete runs of store.go, and its theorems at concrete inputs.
use text.Mathlib.Text.{◌==◌ as str_eq}
use pollmux.Base.{
  ◌≡◌, refl, true, false, [], ◌∷◌, none, some, pos, ◌⊎◌, is_zero, if◌then◌else◌, ◌==◌, incr,
}
use pollmux.Session.{
  new_session, enable_resume, begin_poll, resume_expired, in_resume_grace, detached_beyond_poll_gap,
}
use pollmux.Reliable.{new_reliable}
use pollmux.Store.{
  SessionStore, Heap, lookup, remove_and_mark_closed, sweep, pointers_of, verdict, update, delete,
  evict,
}
use pollmux.Store.Removal.{remove_and_mark_closed_lem}

-- Sessions 0 (plain, idle since 100) and 1 (resumable, detached since 150 with a grace of 30).
abbrev heap : Heap
heap p =
    if p == 0 then new_session "a0" [] 100 else enable_resume (new_session "a1" [] 150) (pos 64) 30

abbrev store : SessionStore
store = record { heap = heap; sessions = ("a0", 0) ∷ ("a1", 1) ∷ []; max_detached_resumable = 4 }

sweeps_plain : pointers_of (sweep store 60 170 []).1 ≡ 0 ∷ []
unfolding sweep verdict update delete evict new_session enable_resume new_reliable
    detached_beyond_poll_gap
sweeps_plain = refl

-- Both resumable, detached since 100 and 150, with a grace of 90, and one too many for the cap.
abbrev crowd : SessionStore
crowd = record {
  heap = λ p.
      if p == 0
      then record (enable_resume (new_session "a0" [] 100) (pos 64) 90) { detached_at = 100 }
      else record (enable_resume (new_session "a1" [] 150) (pos 64) 90) { detached_at = 150 };
  sessions = ("a0", 0) ∷ ("a1", 1) ∷ [];
  max_detached_resumable = 1;
}

crowd_loses_oldest : pointers_of (sweep crowd 60 170 []).1 ≡ 0 ∷ []
unfolding sweep verdict update delete evict new_session enable_resume new_reliable
    detached_beyond_poll_gap
crowd_loses_oldest = refl

-- A poll that comes to the first session.
abbrev attaches : Heap → Heap
attaches heap p = if p == 0 then (begin_poll (heap p) 171).0 else heap p

-- It comes when both have been counted, and the recheck spares the session.
crowd_is_spared : (sweep crowd 60 170 ((λ h. h) ∷ (λ h. h) ∷ attaches ∷ [])).1 ≡ []
unfolding sweep verdict update delete evict new_session enable_resume new_reliable
    detached_beyond_poll_gap begin_poll resume_expired incr
crowd_is_spared = refl

removes : (remove_and_mark_closed store 1 false 160).1 ≡ true
unfolding remove_and_mark_closed lookup new_session enable_resume
removes = refl

remove_and_mark_closed_lem_example :
    let s = store.heap 1 in
    let st' = (remove_and_mark_closed store 1 false 160).0 in
    (lookup s.id store.sessions ≡ some 1)
    × (s.closed ≡ false)
    × ((false ≡ false) ⊎ ((is_zero s.poll_in_flight ≡ true) × (in_resume_grace s 160 ≡ false)))
    × (st'.heap 0 ≡ (if 1 == 0 then record s { closed = true } else store.heap 0))
    × (lookup "a0" st'.sessions ≡ (if str_eq s.id "a0" then none else lookup "a0" store.sessions))
    × (remove_and_mark_closed st' 1 true 161 ≡ (st', false))
remove_and_mark_closed_lem_example =
    remove_and_mark_closed_lem store 1 false 160 0 "a0" true 161 removes
