-- ===== src/Store/Sweep.antt =====
-- store.go: what a sweep may evict.
use Prim.Native.String.{String}
use pollmux.Base.{ℕ, ◌-◌, ◌<◌, ◌≡◌, true, false, List, is_zero, ◌⊎◌, All}
use pollmux.Reliable.{Reliable}
use pollmux.Session.{Session, is_whole, is_set}
use pollmux.Store.{Heap, Pass}

-- A session that has no transport and has been quiet too long: past its grace if it can be resumed, past
-- `timeout` if it cannot be; or, of those that have the reliable layer and where a cap is set, past its
-- poll gap.
abbrev pub IsDue : ℕ → ℕ → ℕ → Session → Type 0
IsDue cap timeout now s =
    (s.closed ≡ false)
    × (is_zero s.poll_in_flight ≡ true)
    × (((is_whole s.rs ≡ false) × (timeout < now - s.last_active))
        ⊎ (((is_whole s.rs ≡ true) × (s.resume_grace < now - s.detached_at))
            ⊎ ((is_set s.rs ≡ true) × (0 < cap) × (s.poll_gap < now - s.detached_at))))

-- What others do to the sessions: a closed one stays closed, and none gains or loses the layer.
abbrev pub IsLawful : (Heap → Heap) → Type 0
IsLawful f =
    (heap : Heap) (p : ℕ)
    → ((heap p).closed ≡ true → (f heap p).closed ≡ true)
      × (is_set (f heap p).rs ≡ is_set (heap p).rs)

module _ (cap timeout now : ℕ) where
  -- What holds of a pass, whatever has happened so far.
  record IsFair (a : Pass) : Type 0 where
    due : All (λ e. IsDue cap timeout now e.1) a.expired
    shut : All (λ e. (a.store.heap e.0).closed ≡ true) a.expired
    counted : All (λ p. is_set (a.store.heap p).rs ≡ true) a.detached
    lawful : All IsLawful a.others

  -- The sessions still to be looked at, too, have the layer.
  record IsReady (ps : List ℕ) (a : Pass) : Type 0 where
    fair : IsFair a
    layered : All (λ p. is_set (a.store.heap p).rs ≡ true) ps
