-- ===== src/Attach/Exclusion.antt =====
-- resume_server.go: while a handshake is under way nobody gains a direction, and once the owners that
-- it found have left nobody holds one.
use pollmux.Base.{
  ℕ, ◌≡◌, refl, Bool, true, false, List, [], ◌∷◌, Option, none, some, arith, ◌⊎◌, inl, inr,
  if◌then◌else◌, ◌==◌, ◌||◌,
}
use pollmux.Attach.{
  AttachKind, Attachments, attach_down, attach_up, attach_both, claim, refused, detach, owns,
  begin_resume,
}
use pollmux.Attach.Steps.{Desk, Step, Reach, claims, detaches, tries_resume, start, next}

abbrev pub member : ℕ → List ℕ → Bool
member o [] = false
member o (x ∷ xs) = x == o || member o xs

-- Whether an owner that was found is done by now; where none was found there is nobody to wait for.
abbrev pub gone : Option ℕ → List ℕ → Bool
gone none done = true
gone (some o) done = member o done

-- A direction is free, or still with the owner that was found, which is not done.
abbrev Kept : Option ℕ → List ℕ → Option ℕ → Type 0
Kept old done now = (now ≡ none) ⊎ ((now ≡ old) × (gone old done ≡ false))

Kept_detach :
    (old now : Option ℕ) (done : List ℕ) (att : ℕ)
    → Kept old done now
    → Kept old (att ∷ done) (if owns now att then none else now)
Kept_detach old none done att k = inl refl
Kept_detach none (some o) done att k = ground (arith, k)
Kept_detach (some p) (some o) done att k = ground (arith, k)

-- What holds from the moment that the owners were read with `resuming` set.
record IsHeld (old_down old_up : Option ℕ) (s : Desk) : Type 0 where
  held : s.att.resuming ≡ true
  down_kept : Kept old_down s.done s.att.down
  up_kept : Kept old_up s.done s.att.up

claim-refused :
    (a : Attachments) (k : AttachKind) (att : ℕ) → a.resuming ≡ true → claim a k att ≡ refused
unfolding claim
claim-refused a k att h = rw h

Step-IsHeld :
    {old_down old_up : Option ℕ} {s t : Desk}
    → Step s t
    → IsHeld old_down old_up s
    → IsHeld old_down old_up t
Step-IsHeld (claims s k a att e) v = absurd (cc (claim-refused s.att k att v.held, e))
Step-IsHeld {old_down} {old_up} (detaches s att) v = record {
  held = unfold detach in v.held;
  down_kept = unfold detach in Kept_detach old_down s.att.down s.done att v.down_kept;
  up_kept = unfold detach in Kept_detach old_up s.att.up s.done att v.up_kept;
}
Step-IsHeld (tries_resume s) v = record {
  held = unfold begin_resume in ground (arith, v.held);
  down_kept = unfold begin_resume in ground (arith, v.held, v.down_kept);
  up_kept = unfold begin_resume in ground (arith, v.held, v.up_kept);
}

Reach-IsHeld :
    {old_down old_up : Option ℕ} {s t : Desk}
    → IsHeld old_down old_up s
    → Reach s t
    → IsHeld old_down old_up t
Reach-IsHeld v start = v
Reach-IsHeld v (next r st) = Step-IsHeld st (Reach-IsHeld v r)

found : (o : Option ℕ) → Kept o [] o
found none = inl refl
found (some o) = inr (refl, refl)

-- From the moment that a handshake, with `resuming` set, has read the two owners: whatever the other
-- handlers do, once each owner that it found is done, no handler owns either direction, and
-- `resuming` is still set.
pub Reach-free :
    (a : Attachments) {t : Desk}
    → a.resuming ≡ true
    → Reach (record { att = a; done = [] }) t
    → gone a.down t.done ≡ true
    → gone a.up t.done ≡ true
    → (t.att.down ≡ none) × (t.att.up ≡ none) × (t.att.resuming ≡ true)
Reach-free a h r d u =
    let v =
      Reach-IsHeld {old_down = a.down} {old_up = a.up}
        (record { held = h; down_kept = found a.down; up_kept = found a.up }) r in
    (ground (arith, v.down_kept, d), ground (arith, v.up_kept, u), v.held)

-- No handler takes a direction over: one that has an owner keeps it or becomes free, and only a
-- direction that was free, with no handshake under way, gets an owner.
pub Step-no_takeover :
    {s t : Desk}
    → Step s t
    → ((t.att.down ≡ s.att.down)
        ⊎ ((t.att.down ≡ none) ⊎ ((s.att.down ≡ none) × (s.att.resuming ≡ false))))
      × ((t.att.up ≡ s.att.up)
          ⊎ ((t.att.up ≡ none) ⊎ ((s.att.up ≡ none) × (s.att.resuming ≡ false))))
unfolding claim
Step-no_takeover (claims s attach_up a att e) = (ground arith, ground arith)
Step-no_takeover (claims s attach_down a att e) = (ground arith, ground arith)
Step-no_takeover (claims s attach_both a att e) = (ground arith, ground arith)
Step-no_takeover (detaches s att) = unfold detach in (ground arith, ground arith)
Step-no_takeover (tries_resume s) = unfold begin_resume in (ground arith, ground arith)
