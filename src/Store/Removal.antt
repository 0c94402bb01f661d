-- ===== src/Store/Removal.antt =====
-- store.go: removeAndMarkClosed, behind closeSession and CloseSessionIfNoPollInFlight of handler.go.
use Prim.Native.String.{String}
use text.Mathlib.Text.{◌==◌ as str_eq}
use text.Mathlib.TextEquality.{eq_iff}
use pollmux.Base.{
  ℕ, ◌≡◌, refl, Bool, true, false, List, [], ◌∷◌, Option, none, some, is_zero, if◌then◌else◌, arith,
  ◌⊎◌, inl, inr, ◌==◌,
}
use pollmux.Session.{in_resume_grace}
use pollmux.Store.{SessionStore, update, lookup, delete, evict, is_entry, remove_and_mark_closed}

pub lookup-delete :
    (i j : String) (m : List (String × ℕ))
    → lookup j (delete i m) ≡ (if str_eq i j then none else lookup j m)
unfolding lookup delete
lookup-delete i j [] = ground arith
lookup-delete i j ((k, p) ∷ m) =
    ground (arith, eq_iff k i, eq_iff k j, eq_iff i j, lookup-delete i j m)

is_entry_iff : (o : Option ℕ) (p : ℕ) → is_entry o p ≡ true → o ≡ some p
unfolding is_entry
is_entry_iff none p h = cc
is_entry_iff (some q) p h = ground arith

removal_cases :
    (st : SessionStore) (p : ℕ) (require_idle : Bool) (now : ℕ)
    → (remove_and_mark_closed st p require_idle now ≡ (st, false))
      ⊎ ((remove_and_mark_closed st p require_idle now ≡ (evict st p (st.heap p).id, true))
          × (lookup (st.heap p).id st.sessions ≡ some p)
          × ((st.heap p).closed ≡ false)
          × ((require_idle ≡ false)
              ⊎ ((is_zero (st.heap p).poll_in_flight ≡ true)
                  × (in_resume_grace (st.heap p) now ≡ false))))
unfolding remove_and_mark_closed
removal_cases st p require_idle now =
    ground (arith, is_entry_iff (lookup (st.heap p).id st.sessions) p)

-- A closed session is not closed again.
removal_closed :
    (st : SessionStore) (p : ℕ)
    → (st.heap p).closed ≡ true
    → (require_idle : Bool) (now : ℕ) → remove_and_mark_closed st p require_idle now ≡ (st, false)
unfolding remove_and_mark_closed
removal_closed st p c require_idle now = ground arith

heap-evict :
    (st : SessionStore) (p : ℕ) (id : String) (q : ℕ)
    → (evict st p id).heap q ≡ (if p == q then record (st.heap p) { closed = true } else st.heap q)
unfolding evict update
heap-evict st p id q = refl

closed-evict : (st : SessionStore) (p : ℕ) (id : String) → ((evict st p id).heap p).closed ≡ true
unfolding evict update
closed-evict st p id = ground arith

sessions-evict :
    (st : SessionStore) (p : ℕ) (id j : String)
    → lookup j (evict st p id).sessions ≡ (if str_eq id j then none else lookup j st.sessions)
unfolding evict
sessions-evict st p id j = lookup-delete id j st.sessions

-- The call that closes a session found it current and open, and with `require_idle` also without a
-- transport and outside its grace. It leaves the session closed and its id free, and every other
-- session and id as they were; and no later call on that session succeeds.
pub remove_and_mark_closed_lem :
    (st : SessionStore) (p : ℕ) (require_idle : Bool) (now q : ℕ) (j : String) (idle' : Bool)
    (later : ℕ)
    → (remove_and_mark_closed st p require_idle now).1 ≡ true
    → let s = st.heap p in
      let st' = (remove_and_mark_closed st p require_idle now).0 in
      (lookup s.id st.sessions ≡ some p)
      × (s.closed ≡ false)
      × ((require_idle ≡ false)
          ⊎ ((is_zero s.poll_in_flight ≡ true) × (in_resume_grace s now ≡ false)))
      × (st'.heap q ≡ (if p == q then record s { closed = true } else st.heap q))
      × (lookup j st'.sessions ≡ (if str_eq s.id j then none else lookup j st.sessions))
      × (remove_and_mark_closed st' p idle' later ≡ (st', false))
remove_and_mark_closed_lem st p require_idle now q j idle' later h =
    elim (removal_cases st p require_idle now) [
      | inl e ↦ absurd (cc (h, e))
      | inr (e, current, o, idle) ↦ rw e (
        current,
        o,
        idle,
        heap-evict st p (st.heap p).id q,
        sessions-evict st p (st.heap p).id j,
        removal_closed (evict st p (st.heap p).id) p (closed-evict st p (st.heap p).id) idle' later,
      )
    ]
