-- ===== src/Resuming/Layer.antt =====
-- resumable_client.go: what resume leaves of the reliable layer.
use pollmux.Base.{ℕ, ◌≡◌, ◌≢◌, ◌<◌, true, false, List, ◌∷◌, ◌++◌}
use pollmux.Reliable.{Reliable}
use pollmux.Reliable.Sender.{Sends}
use pollmux.Resuming.{
  resume_response, trying, Attempt, Resumed, ResumeEnd, resumed, panicked, gave_up, Tried, tried,
  retries,
}

-- The attempt that settles a run of resume, with the server's count of received bytes in its answer: in
-- front of it the run was still trying.
abbrev pub Decides : (List Attempt → Resumed) → List Attempt → ℕ → Type 0
Decides f attempts recv =
    (front : List Attempt) × (a : Attempt) × (rest : List Attempt) × (attempts
      ≡ front ++ (a ∷ rest))
    × (a.answer ≡ resume_response true recv)
    × ((f front).ending ≡ trying)

-- The layer still numbers what was sent; a resume that succeeded goes on from exactly what the server
-- said that it has; only a status below 500 is final.
pub record Kept (sent : List ℕ) (P : ℕ → Type 0) (layer : Reliable) (ending : ResumeEnd)
    : Type 0 where
  pub sends : Sends layer sent
  pub no_panic : ending ≢ panicked
  pub from_peer :
      ending ≡ resumed
      → (recv : ℕ) × P recv
        × (layer.sent_cursor ≡ recv)
        × (layer.acked_offset ≡ recv)
        × (layer.broken ≡ false)
  pub final : (n : ℕ) → ending ≡ gave_up n → n < 500

abbrev KeptBy : List ℕ → (ℕ → Type 0) → Resumed → Type 0
KeptBy sent P x = Kept sent P x.layer x.ending

abbrev KeptTry : List ℕ → (ℕ → Type 0) → Tried → Type 0
KeptTry sent P (tried r e) = Kept sent P r e
KeptTry sent P (retries r) = Sends r sent
