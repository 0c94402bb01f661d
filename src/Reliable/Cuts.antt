-- ===== src/Reliable/Cuts.antt =====
-- reliable.go: the chunks that a sender numbers, as cuts of the bytes that it was given.
use pollmux.Base.{
  ℕ, ◌+◌, ◌-◌, ◌≤◌, ◌≡◌, sym, ap, ◌∙◌, List, ◌++◌, length, length-append, length-take, length-drop,
  take, take_all, take-append_le, take-length-take, take_add, drop, drop-take, drop-drop,
  drop-append_le, drop-append_length, arith,
}
use pollmux.Reliable.{Chunk}

-- The bytes of `sent` from the chunk's offset on.
abbrev pub IsCutOf : List ℕ → Chunk → Type 0
IsCutOf sent c =
    (c.off + length c.bytes ≤ length sent) × (c.bytes ≡ take (length c.bytes) (drop c.off sent))

pub IsCutOf-append : (sent more : List ℕ) (c : Chunk) → IsCutOf sent c → IsCutOf (sent ++ more) c
IsCutOf-append sent more c (le, e) = (
  omega (arith, length-append sent more),
  e
      ∙ sym (
          take-append_le (length c.bytes) (drop c.off sent) more
            (omega (arith, length-drop c.off sent)))
      ∙ ap (take (length c.bytes)) (sym (drop-append_le c.off sent more (omega arith))),
)

pub IsCutOf-fresh :
    (sent bytes : List ℕ) → IsCutOf (sent ++ bytes) (record { off = length sent; bytes = bytes })
IsCutOf-fresh sent bytes = (
  omega (arith, length-append sent bytes),
  sym (take_all (length bytes) bytes (omega arith))
      ∙ ap (take (length bytes)) (sym (drop-append_length sent bytes)),
)

pub IsCutOf-replay :
    (sent : List ℕ) (off dst : ℕ)
    → off ≤ length sent
    → IsCutOf sent (record { off = off; bytes = take dst (drop off sent) })
IsCutOf-replay sent off dst h = (
  omega (arith, length-take dst (drop off sent), length-drop off sent),
  sym (take-length-take dst (drop off sent)),
)

-- What is new in a cut continues the prefix that was received.
pub news_continue :
    (sent : List ℕ) (c : Chunk) (recv : ℕ)
    → IsCutOf sent c
    → c.off ≤ recv
    → take recv sent ++ drop (recv - c.off) c.bytes
      ≡ take (recv + length (drop (recv - c.off) c.bytes)) sent
news_continue sent c recv (le, e) h =
    ap (λ b. take recv sent ++ b) new_bytes
    ∙ sym (take_add recv (length (drop (recv - c.off) c.bytes)) sent)
  where
    at : drop (c.off + (recv - c.off)) sent ≡ drop recv sent
    at = ap (λ k. drop k sent) (omega arith)

    new_bytes :
        drop (recv - c.off) c.bytes ≡ take (length (drop (recv - c.off) c.bytes)) (drop recv sent)
    new_bytes =
        ap (drop (recv - c.off)) e
        ∙ drop-take (recv - c.off) (length c.bytes) (drop c.off sent)
        ∙ ap (take (length c.bytes - (recv - c.off))) (drop-drop (recv - c.off) c.off sent ∙ at)
        ∙ ap (λ k. take k (drop recv sent)) (sym (length-drop (recv - c.off) c.bytes))
