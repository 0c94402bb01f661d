-- ===== src/Attach/Steps.antt =====
-- resume_server.go: the critical sections as a step relation. A handler that has detached is done and
-- never claims again.
use pollmux.Base.{ℕ, ◌≡◌, List, ◌∷◌}
use pollmux.Attach.{AttachKind, Attachments, claim, claimed, detach, begin_resume}

-- The directions, and the attachments that are done.
pub record Desk : Type 0 where
  pub att : Attachments
  pub done : List ℕ

-- What handlers other than the one that resumes may do.
pub data Step : Desk → Desk → Type 0 where
  claims :
      (s : Desk) (k : AttachKind) (a : Attachments) (att : ℕ)
      → claim s.att k att ≡ claimed a
      → Step s (record s { att = a })
  detaches : (s : Desk) (att : ℕ) → Step s (record { att = detach s.att att; done = att ∷ s.done })
  -- Another resume is turned away.
  tries_resume : (s : Desk) → Step s (record s { att = (begin_resume s.att).0 })

pub data Reach (s : Desk) : Desk → Type 0 where
  start : Reach s s
  next : {t u : Desk} → Reach s t → Step t u → Reach s u
