-- ===== src/Legs/Taking.antt =====
-- reliable.go: what nextOut takes from the pipe and gives to a leg.
use Prim.{tt}
use mathlib.Core.Path.{subst}
use pollmux.Base.{
  ℕ, ◌+◌, ◌≡◌, ◌≤◌, ◌<◌, sym, ap, ◌∙◌, List, [], ◌∷◌, ◌++◌, append-nil, Option, none, some, inl,
  inr, length, u64_mod, arith, Bool-cases,
}
use pollmux.Pipe.{
  BufferedPipe, Wake, Change, ReadResult, got, failed, blocked, bytes_of, read_available,
}
use pollmux.Pipe.Content.{pending, all_changes, outcome_then-read_available}
use pollmux.Pipe.Outcome.{read_available-Justified}
use pollmux.Stream.{settle}
use pollmux.Stream.Writer.{pending-settle, fits_of}
use pollmux.Reliable.{
  Reliable, NextOut, sends, idle, fails, waits, next_out, replay_due, fresh_out, replay_out,
}
use pollmux.Reliable.Sender.{Sends, next_fresh_lem, next_replay_lem, next_replay-Sends}
use pollmux.Reliable.Cuts.{IsCutOf, IsCutOf-fresh, IsCutOf-replay}

-- What nextOut gives: a chunk is a cut of what was sent.
abbrev pub Gives : List ℕ → NextOut → Type 0
Gives sent (sends c) = IsCutOf sent c
Gives sent idle = Unit
Gives sent (fails e) = Unit
Gives sent waits = Unit

-- nextOut has taken `more` from the pipe, of the bytes `total` that the pipe held and is given.
abbrev pub Outcome :
    List ℕ
    → ℕ
    → List ℕ
    → List Change
    → Option (Reliable × BufferedPipe × NextOut × List Wake)
    → Type 0
Outcome sent dst total cs none = ⊥
Outcome sent dst total cs (some (r, out, given, ws)) =
    (more : List ℕ) × Sends r (sent ++ more)
    × Gives (sent ++ more) given
    × (length more ≤ dst)
    × (more ++ pending (settle out ws) cs ≡ total)

fresh_out-Outcome :
    (r : Reliable) (sent : List ℕ) (dst : ℕ) (total : List ℕ) (cs : List Change)
    (out : BufferedPipe) (ws : List Wake) (result : ReadResult)
    → Sends r sent
    → length sent + dst < u64_mod
    → length (bytes_of result) ≤ dst
    → bytes_of result ++ pending (settle out ws) cs ≡ total
    → Outcome sent dst total cs
        (let (r', answer) = fresh_out r result in some (r', out, answer, ws))
unfolding fresh_out
fresh_out-Outcome r sent dst total cs out ws (got []) v h fits e =
    ([], rw (append-nil sent) v, tt, fits, e)
fresh_out-Outcome r sent dst total cs out ws (got (b ∷ bytes)) v h fits e =
    let (v', same, received, told, whole, bound) =
      next_fresh_lem r sent v (b ∷ bytes) (omega arith) in
    (
      b ∷ bytes,
      v',
      subst (IsCutOf (sent ++ (b ∷ bytes))) (sym same) (IsCutOf-fresh sent (b ∷ bytes)),
      fits,
      e,
    )
fresh_out-Outcome r sent dst total cs out ws (failed x) v h fits e =
    ([], rw (append-nil sent) v, tt, fits, e)
fresh_out-Outcome r sent dst total cs out ws blocked v h fits e =
    ([], rw (append-nil sent) v, tt, fits, e)

abbrev pub KeepsSends : (Reliable → Reliable) → Type 0
KeepsSends f = (r : Reliable) (sent : List ℕ) → Sends r sent → Sends (f r) sent

pub next_out-Outcome :
    (r : Reliable) (sent : List ℕ) (out : BufferedPipe) (dst : ℕ) (meanwhile : Reliable → Reliable)
    (ws : List Wake) (cs : List Change)
    → Sends r sent
    → KeepsSends meanwhile
    → 0 < dst
    → length sent + dst < u64_mod
    → Outcome sent dst (pending out (all_changes ws ++ cs)) cs (next_out r out dst meanwhile ws)
unfolding next_out replay_out
next_out-Outcome r sent out dst meanwhile ws cs v keep pos h = elim (Bool-cases (replay_due r)) [
  | inl e ↦
      simp (e, next_replay_lem r sent v dst e)
        (
          [],
          rw (append-nil sent) (next_replay-Sends r sent v dst),
          rw (append-nil sent)
              (IsCutOf-replay sent r.sent_cursor dst (omega (arith, v.cursor_le, v.counted))),
          omega arith,
          pending-settle out ws cs,
        )
  | inr e ↦ simp e (
      let (out', result, ws') = read_available out dst ws in
      fresh_out-Outcome (meanwhile r) sent dst _ cs out' ws' result (keep r sent v) h
        (fits_of dst ws (read_available out dst ws) (read_available-Justified out dst ws pos))
        (ap (λ b. bytes_of result ++ b) (pending-settle out' ws' cs)
          ∙ outcome_then-read_available cs out dst ws))
]
