-- ===== src/Store.antt =====
-- store.go and the closing functions of handler.go: the sessions by id. Sessions are objects on a heap,
-- known by a number, Go's pointer; the map is a list of its entries. Ranging over it takes the order of
-- the list, and sort.Slice keeps the order of equal times: Go leaves both open. Both locks are held
-- throughout an operation, so each is one function; sweep alone lets go of the sessions' in between.
-- The callbacks are returned, as the sessions evicted.
pub mod Removal
pub mod Sweep
mod Runs
use Prim.Native.String.{String}
use text.Mathlib.Text.{◌==◌ as str_eq}
use pollmux.Base.{
  ℕ, ◌-◌, Bool, true, false, not, ◌&&◌, ◌||◌, List, [], ◌∷◌, ◌++◌, Option, none, some, is_zero, ltb,
  leb, if◌then◌else◌, length, take, dec_lt,
}
use pollmux.Base
use pollmux.Session.{
  Session, is_whole, is_set, in_resume_grace, detached_beyond_poll_gap, close_pipes,
}

abbrev pub Heap : Type 0
Heap = ℕ → Session

pub record SessionStore : Type 0 where
  pub heap : Heap
  pub sessions : List (String × ℕ)
  pub max_detached_resumable : ℕ

unfoldable pub update : Heap → ℕ → Session → Heap
update heap p s q = if Base.◌==◌ p q then s else heap q

unfoldable pub lookup : String → List (String × ℕ) → Option ℕ
lookup id [] = none
lookup id ((k, p) ∷ m) = if str_eq k id then some p else lookup id m

unfoldable pub delete : String → List (String × ℕ) → List (String × ℕ)
delete id [] = []
delete id ((k, p) ∷ m) = if str_eq k id then delete id m else (k, p) ∷ delete id m

unfoldable pub add : SessionStore → ℕ → SessionStore
unfolding delete
add st p = let id = (st.heap p).id in record st { sessions = (id, p) ∷ delete id st.sessions }

unfoldable pub get : SessionStore → String → Option ℕ
unfolding lookup
get st id = lookup id st.sessions

unfoldable pub remove : SessionStore → String → SessionStore
unfolding delete
remove st id = record st { sessions = delete id st.sessions }

pointers : List (String × ℕ) → List ℕ
pointers [] = []
pointers ((k, p) ∷ m) = p ∷ pointers m

unfoldable pub all : SessionStore → List ℕ
unfolding pointers
all st = pointers st.sessions

unfoldable pub len : SessionStore → ℕ
len st = length st.sessions

-- Marks the session closed and drops its id.
unfoldable pub evict : SessionStore → ℕ → String → SessionStore
unfolding update delete
evict st p id = record st {
  heap = update st.heap p (record (st.heap p) { closed = true });
  sessions = delete id st.sessions;
}

unfoldable pub is_entry : Option ℕ → ℕ → Bool
is_entry none p = false
is_entry (some q) p = Base.◌==◌ q p

-- removeAndMarkClosed.
unfoldable pub remove_and_mark_closed : SessionStore → ℕ → Bool → ℕ → SessionStore × Bool
unfolding is_entry
remove_and_mark_closed st p require_idle now =
    let s = st.heap p in
    if not (is_entry (lookup s.id st.sessions) p)
    then (st, false)
    else if s.closed || (require_idle && (not (is_zero s.poll_in_flight) || in_resume_grace s now))
    then (st, false)
    else (evict st p s.id, true)

-- The pipes of the sessions that were closed, outside the locks.
unfoldable pub close_all : List ℕ → Heap → Heap
unfolding update
close_all [] heap = heap
close_all (p ∷ ps) heap = close_all ps (update heap p (close_pipes (heap p)))

unfoldable pub closed_by : ℕ → SessionStore × Bool → SessionStore × Bool
unfolding close_all
closed_by p (st, true) = (record st { heap = close_all (p ∷ []) st.heap }, true)
closed_by p (st, false) = (st, false)

-- closeSession, of handler.go; `true` where OnDisconnect is called.
unfoldable pub close_session : SessionStore → ℕ → ℕ → SessionStore × Bool
unfolding remove_and_mark_closed closed_by
close_session st p now = closed_by p (remove_and_mark_closed st p false now)

-- CloseSessionIfNoPollInFlight, of handler.go.
unfoldable pub close_session_if_no_poll_in_flight : SessionStore → ℕ → ℕ → SessionStore × Bool
unfolding remove_and_mark_closed closed_by
close_session_if_no_poll_in_flight st p now = closed_by p (remove_and_mark_closed st p true now)

-- What the first pass of sweep does with a session.
pub data Verdict : Type 0 where
  keep expire count : Verdict

unfoldable pub verdict : Session → ℕ → ℕ → Verdict
verdict s timeout now =
    if not s.closed && is_zero s.poll_in_flight
    then if is_whole s.rs
      then if ltb s.resume_grace (now - s.detached_at)
        then expire
        else if detached_beyond_poll_gap s now
        then count
        else keep
      else if ltb timeout (now - s.last_active)
      then expire
      else keep
    else keep

-- A pass in progress: the store, the lists `expired` and `detached`, and what others still do to the
-- sessions. The map is locked throughout, but each session only while it is looked at: the head of
-- `others` is what happens to the sessions before the next one is. An expired session stands with what
-- it was under its lock when it was taken.
pub record Pass : Type 0 where
  pub store : SessionStore
  pub expired : List (ℕ × Session)
  pub detached : List ℕ
  pub others : List (Heap → Heap)

others_run : Pass → List (Heap → Heap) → Pass
others_run a [] = a
others_run a (f ∷ fs) = record a { store = record a.store { heap = f a.store.heap }; others = fs }

between : Pass → Pass
unfolding others_run
between a = others_run a a.others

take_expired : Pass → ℕ → String → Pass
unfolding evict
take_expired a p id = record a {
  store = evict a.store p id;
  expired = a.expired ++ ((p, a.store.heap p) ∷ []);
}

judge : String → ℕ → Pass → Verdict → Pass
unfolding take_expired
judge id p a keep = a
judge id p a expire = take_expired a p id
judge id p a count = record a { detached = a.detached ++ (p ∷ []) }

first_pass : ℕ → ℕ → List (String × ℕ) → Pass → Pass
unfolding judge verdict between
first_pass timeout now [] a = a
first_pass timeout now ((id, p) ∷ m) a =
    let b = between a in
    first_pass timeout now m (judge id p b (verdict (b.store.heap p) timeout now))

insert_by_detached : Heap → ℕ → List ℕ → List ℕ
insert_by_detached heap p [] = p ∷ []
insert_by_detached heap p (q ∷ qs) =
    if ltb (heap q).detached_at (heap p).detached_at
    then q ∷ insert_by_detached heap p qs
    else p ∷ q ∷ qs

-- sort.Slice by detachedAt.
sort_by_detached : Heap → List ℕ → List ℕ
unfolding insert_by_detached
sort_by_detached heap [] = []
sort_by_detached heap (p ∷ ps) = insert_by_detached heap p (sort_by_detached heap ps)

rechecked : ℕ → ℕ → Pass → Pass
unfolding take_expired
rechecked now p a =
    let s = a.store.heap p in
    if not s.closed && detached_beyond_poll_gap s now then take_expired a p s.id else a

recheck : ℕ → ℕ → Pass → Pass
unfolding rechecked between
recheck now p a = rechecked now p (between a)

second_pass : ℕ → List ℕ → Pass → Pass
unfolding recheck
second_pass now [] a = a
second_pass now (p ∷ ps) a = second_pass now ps (recheck now p a)

-- The sessions beyond the cap, the longest detached first.
excess : ℕ → Pass → List ℕ
unfolding sort_by_detached
excess cap a =
    if ltb 0 cap && ltb cap (length a.detached)
    then take (length a.detached - cap) (sort_by_detached a.store.heap a.detached)
    else []

passes : SessionStore → ℕ → ℕ → List (Heap → Heap) → Pass
unfolding first_pass second_pass excess
passes st timeout now others =
    let a =
      first_pass timeout now st.sessions
        (record { store = st; expired = []; detached = []; others = others }) in
    second_pass now (excess st.max_detached_resumable a) a

pointers_of : List (ℕ × Session) → List ℕ
pointers_of [] = []
pointers_of ((p, s) ∷ es) = p ∷ pointers_of es

-- sweep, with the sessions that it evicts, in the order of the callbacks.
unfoldable pub sweep : SessionStore → ℕ → ℕ → List (Heap → Heap) → SessionStore × List (ℕ × Session)
unfolding passes close_all pointers_of
sweep st timeout now others =
    let a = passes st timeout now others in
    (record a.store { heap = close_all (pointers_of a.expired) a.store.heap }, a.expired)
