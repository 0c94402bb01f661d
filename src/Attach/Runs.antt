-- ===== src/Attach/Runs.antt =====
-- Concrete runs of the attachments, and their theorems at concrete inputs: a WebSocket (1) holds both
-- directions when a handshake begins, and leaves.
use pollmux.Base.{◌≡◌, refl, true, false, [], ◌∷◌, none, some}
use pollmux.Attach.{
  Attachments, attach_down, attach, attached, kick_all, detach, begin_resume, claim,
}
use pollmux.Attach.Steps.{Desk, detaches, tries_resume, start, next}
use pollmux.Attach.Exclusion.{Reach-free}

abbrev both_held : Attachments
both_held = record { down = some 1; up = some 1; resuming = true }

attach_waits :
    attach attach_down 2
      (record both_held { resuming = false })
      (record { meanwhile = λ a. detach a 1; left = true } ∷ [])
    ≡ attached (record { down = some 2; up = none; resuming = false }) []
unfolding attach detach claim
attach_waits = refl

kick_all_leaves :
    kick_all both_held (
      record { meanwhile = λ a. detach a 1; left = true }
      ∷ record { meanwhile = λ a. a; left = true }
      ∷ [])
    ≡ (record { down = none; up = none; resuming = true }, true)
unfolding kick_all detach
kick_all_leaves = refl

abbrev opening : Desk
opening = record { att = both_held; done = [] }

abbrev let_go : Desk
let_go = record { att = detach both_held 1; done = 1 ∷ [] }

abbrev tried : Desk
tried = record let_go { att = (begin_resume let_go.att).0 }

Reach-free_example : (tried.att.down ≡ none) × (tried.att.up ≡ none) × (tried.att.resuming ≡ true)
unfolding detach
Reach-free_example =
    Reach-free both_held {t = tried} refl
      (next (next start (detaches opening 1)) (tries_resume let_go)) refl refl

abbrev half_held : Desk
half_held = record { att = record { down = some 1; up = none; resuming = false }; done = [] }

abbrev claimed_up : Attachments
claimed_up = record { down = some 1; up = some 2; resuming = false }
