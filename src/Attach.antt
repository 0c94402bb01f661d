-- ===== src/Attach.antt =====
-- resume_server.go: which handler owns each direction of a resumable session. Every critical section
-- of the mutex is one function; an attachment is known by a number, Go's pointer. Between them other
-- handlers run: where a claimant waits for an owner to leave, what happened meanwhile and whether the
-- owner left in time are arguments.
pub mod Steps
pub mod Exclusion
mod Runs
use pollmux.Base.{
  ℕ, Bool, true, false, ◌&&◌, ◌||◌, List, [], ◌∷◌, Option, none, some, ◌==◌, if◌then◌else◌,
}

pub data AttachKind : Type 0 where
  attach_down attach_up attach_both : AttachKind

pub record Attachments : Type 0 where
  pub down : Option ℕ
  pub up : Option ℕ
  pub resuming : Bool

unfoldable pub new_attachments : Attachments
new_attachments = record { down = none; up = none; resuming = false }

unfoldable pub slot : Attachments → AttachKind → Option ℕ
slot a attach_up = a.up
slot a attach_down = a.down
slot a attach_both = a.down

set_slot : Attachments → AttachKind → ℕ → Attachments
set_slot a attach_up att = record a { up = some att }
set_slot a attach_down att = record a { down = some att }
set_slot a attach_both att = record a { down = some att }

abbrev pub owns : Option ℕ → ℕ → Bool
owns none att = false
owns (some old) att = old == att

-- detach: every direction that `att` owns becomes free.
unfoldable pub detach : Attachments → ℕ → Attachments
detach a att = record a {
  down = if owns a.down att then none else a.down;
  up = if owns a.up att then none else a.up;
}

unfoldable pub is_current : Attachments → ℕ → Bool
is_current a att = owns a.down att || owns a.up att

-- One turn of attach's inner loop.
pub data Claim : Type 0 where
  refused : Claim
  claimed : Attachments → Claim
  occupied : ℕ → Claim

free_or_occupied : Attachments → AttachKind → ℕ → Option ℕ → Claim
unfolding set_slot
free_or_occupied a k att none = claimed (set_slot a k att)
free_or_occupied a k att (some old) = occupied old

unfoldable pub claim : Attachments → AttachKind → ℕ → Claim
unfolding slot free_or_occupied
claim a k att = if a.resuming then refused else free_or_occupied a k att (slot a k)

-- How a kickAndWait ends: what others did meanwhile, and whether the old owner was done in time.
pub record Wait : Type 0 where
  pub meanwhile : Attachments → Attachments
  pub left : Bool

-- `waiting` is no Go value: the claimant still waits when the waits that are given are used up.
pub data Attached : Type 0 where
  attached : Attachments → List Wait → Attached
  still_attached : Attachments → Attached
  waiting : Attachments → Attached

kinds_of : AttachKind → List AttachKind
kinds_of attach_both = attach_down ∷ attach_up ∷ []
kinds_of attach_up = attach_up ∷ []
kinds_of attach_down = attach_down ∷ []

-- The inner loop of attach for one direction.
claim_loop : AttachKind → ℕ → Attachments → List Wait → Attached
unfolding detach claim
claim_loop k att a [] = elim (claim a k att) [
  | refused ↦ still_attached (detach a att)
  | claimed a' ↦ attached a' []
  | occupied old ↦ waiting a
]
claim_loop k att a (w ∷ ws) = elim (claim a k att) [
  | refused ↦ still_attached (detach a att)
  | claimed a' ↦ attached a' (w ∷ ws)
  | occupied old ↦
      if w.left
      then claim_loop k att (w.meanwhile a) ws
      else still_attached (detach (w.meanwhile a) att)
]

claim_all : List AttachKind → ℕ → Attachments → List Wait → Attached
unfolding claim_loop
claim_all [] att a ws = attached a ws
claim_all (k ∷ ks) att a ws = elim (claim_loop k att a ws) [
  | attached a' ws' ↦ claim_all ks att a' ws'
  | still_attached a' ↦ still_attached a'
  | waiting a' ↦ waiting a'
]

-- attach, for the new attachment `att`.
unfoldable pub attach : AttachKind → ℕ → Attachments → List Wait → Attached
unfolding kinds_of claim_all
attach kind att a ws = claim_all (kinds_of kind) att a ws

-- kickAll's loop over the owners that it found; `true` if all of them left.
unfoldable pub kick_olds : List (Option ℕ) → Attachments → List Wait → Attachments × Bool
kick_olds [] a ws = (a, true)
kick_olds (none ∷ olds) a ws = kick_olds olds a ws
kick_olds (some old ∷ olds) a [] = (a, false)
kick_olds (some old ∷ olds) a (w ∷ ws) =
    let rest = kick_olds olds (w.meanwhile a) ws in if w.left then rest else (w.meanwhile a, false)

unfoldable pub kick_all : Attachments → List Wait → Attachments × Bool
unfolding kick_olds
kick_all a ws = kick_olds (a.down ∷ a.up ∷ []) a ws

unfoldable pub begin_resume : Attachments → Attachments × Bool
begin_resume a = if a.resuming then (a, false) else (record a { resuming = true }, true)

unfoldable pub end_resume : Attachments → Attachments
end_resume a = record a { resuming = false }
