-- ===== src/Frame/Codec.antt =====
-- frame.go: the bytes of a frame, and what the reader makes of them.
use pollmux.Base.{
  ℕ, suc, ◌%◌, ◌≡◌, ◌≤◌, ◌<◌, refl, sym, ap, ◌∙◌, Bool, List, [], ◌∷◌, ◌++◌, append_assoc,
  append-nil, length, length-append, length-big_endian, from_big_endian-big_endian, take, drop,
  take-append_length, drop-append_length, u32_mod, u64_mod, big_endian, from_big_endian, arith,
}
use pollmux.Frame.{
  ok, Source, read_full, read_payload, next, header_fields, payload_limit, encode_offset,
  decode_ack, split_seq,
}

-- The frame's bytes: its type, the length as four bytes, the payload.
abbrev pub header : ℕ → ℕ → List ℕ
header typ n = typ ∷ big_endian 4 (n % u32_mod)

abbrev pub encoding : ℕ → List ℕ → List ℕ
encoding typ payload = header typ (length payload) ++ payload

abbrev pub source : List ℕ → Bool → Source
source bytes broken = record { bytes = bytes; broken = broken }

pub read_full-append :
    (xs rest : List ℕ) (broken : Bool)
    → read_full (length xs) (source (xs ++ rest) broken) ≡ ok (xs, source rest broken)
unfolding read_full
read_full-append xs rest broken =
    ground (arith, length-append xs rest, take-append_length xs rest, drop-append_length xs rest)

pub length-header : (typ n : ℕ) → length (header typ n) ≡ 5
length-header typ n = ap suc (length-big_endian 4 (n % u32_mod))

pub header_fields-header : (typ n : ℕ) → n < u32_mod → header_fields (header typ n) ≡ (typ, n)
unfolding header_fields
header_fields-header typ n h =
    ap (λ m. (typ, m)) (from_big_endian-big_endian 4 (n % u32_mod) (omega arith) ∙ omega arith)

pub read_full-header :
    (typ n : ℕ) (rest : List ℕ) (broken : Bool)
    → read_full 5 (source (header typ n ++ rest) broken) ≡ ok (header typ n, source rest broken)
read_full-header typ n rest broken =
    ap (λ k. read_full k (source (header typ n ++ rest) broken)) (sym (length-header typ n))
    ∙ read_full-append (header typ n) rest broken

-- `next` reads a header and goes on with the payload.
pub next-header :
    (max_payload typ n : ℕ) (rest : List ℕ) (broken : Bool)
    → n < u32_mod
    → next max_payload (source (header typ n ++ rest) broken)
      ≡ read_payload max_payload (typ, n) (source rest broken)
unfolding next
next-header max_payload typ n rest broken h =
    rw (read_full-header typ n rest broken) (rw (header_fields-header typ n h))

pub next-encoding :
    (max_payload typ : ℕ) (payload rest : List ℕ) (broken : Bool)
    → length payload < u32_mod
    → length payload ≤ payload_limit typ max_payload
    → next max_payload (source (encoding typ payload ++ rest) broken)
      ≡ ok (record { typ = typ; payload = payload }, source rest broken)
next-encoding max_payload typ payload rest broken h fits =
    rw (append_assoc (header typ (length payload)) payload rest) (
      next-header max_payload typ (length payload) (payload ++ rest) broken h
      ∙ read_body payload h fits)
  where
    read_body :
        (p : List ℕ)
        → length p < u32_mod
        → length p ≤ payload_limit typ max_payload
        → read_payload max_payload (typ, length p) (source (p ++ rest) broken)
          ≡ ok (record { typ = typ; payload = p }, source rest broken)
    read_body [] h f = unfold read_payload in refl
    read_body (x ∷ xs) h f =
        unfold read_payload in rw (read_full-append (x ∷ xs) rest broken) (ground arith)

-- What encodeOffset makes of a uint64, decodeAck reads back.
pub decode_ack-encode_offset : (n : ℕ) → n < u64_mod → decode_ack (encode_offset n) ≡ ok n
unfolding decode_ack encode_offset
decode_ack-encode_offset n h =
    rw (length-big_endian 8 n)
      (ap ok (ap (from_big_endian 0) taken ∙ from_big_endian-big_endian 8 n (omega arith)))
  where
    taken : take 8 (big_endian 8 n) ≡ big_endian 8 n
    taken =
        ap (λ k. take k (big_endian 8 n)) (sym (length-big_endian 8 n))
        ∙ ap (take (length (big_endian 8 n))) (sym (append-nil (big_endian 8 n)))
        ∙ take-append_length (big_endian 8 n) []

pub split_seq-encoding :
    (off : ℕ) (bytes : List ℕ)
    → off < u64_mod
    → split_seq (big_endian 8 off ++ bytes) ≡ ok (off, bytes)
unfolding split_seq
split_seq-encoding off bytes h = ground (
  arith,
  length-append (big_endian 8 off) bytes,
  length-big_endian 8 off,
  cut_take,
  cut_drop,
  from_big_endian-big_endian 8 off,
)
  where
    at_eight : 8 ≡ length (big_endian 8 off)
    at_eight = sym (length-big_endian 8 off)

    cut_take : take 8 (big_endian 8 off ++ bytes) ≡ big_endian 8 off
    cut_take =
        ap (λ k. take k (big_endian 8 off ++ bytes)) at_eight
        ∙ take-append_length (big_endian 8 off) bytes

    cut_drop : drop 8 (big_endian 8 off ++ bytes) ≡ bytes
    cut_drop =
        ap (λ k. drop k (big_endian 8 off ++ bytes)) at_eight
        ∙ drop-append_length (big_endian 8 off) bytes
