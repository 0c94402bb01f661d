-- ===== src/Upload/Refusal.antt =====
-- handler.go: the streamed upload's branches that take no data.
use pollmux.Base.{
  ℕ, suc, ◌≡◌, ◌<◌, refl, ap, ◌∙◌, Bool, true, false, ◌||◌, not, ◌&&◌, List, ◌++◌, append_assoc,
  Option, none, some, length, u32_mod, ◌==◌, if◌then◌else◌, arith,
}
use pollmux.Session.{Session, is_set}
use pollmux.Frame.{
  Frame, Source, too_long, read_payload, err, next, payload_limit, frame_data, frame_seq_data,
  frame_ack, frame_heartbeat, frame_end,
}
use pollmux.Frame.Codec.{source, encoding, header, next-header}
use pollmux.Frame.Loop.{
  Step, read_frames, StepKeeps, EndKeeps, read_frames-Keeps, read_frames-Returns, feed,
}
use pollmux.Frame.Loop.Wire.{encodings, AllFit, read_frames-then}
use pollmux.Upload.{
  SendReply, dropped, take_plain, layer_of, seq_data, ack_frame, take_send_frame, send_error,
  poll_send_stream,
}

or_true : (b : Bool) → b || true ≡ true
or_true true = refl
or_true false = refl

-- A probe's frames reach nothing.
module _ (s : Session) where
  abbrev Leaves : Step Session SendReply → Type 0
  Leaves = StepKeeps (take_send_frame true) send_error (λ t. t ≡ s)

  either :
      (b : Bool) (x y : Step Session SendReply) → Leaves x → Leaves y → Leaves (if b then x else y)
  either true x y u v = u
  either false x y u v = v

  take_plain-Leaves : (t : Session) (payload : List ℕ) → t ≡ s → Leaves (take_plain true t payload)
  unfolding take_plain
  take_plain-Leaves t payload e = rw (or_true (length payload == 0)) e

  take_send_frame-Leaves : (t : Session) (f : Frame) → t ≡ s → Leaves (take_send_frame true t f)
  unfolding take_send_frame layer_of seq_data ack_frame
  take_send_frame-Leaves t f e =
      either (f.typ == frame_data) _ _ (take_plain-Leaves t f.payload e) (
        either (f.typ == frame_seq_data) _ _ e (
          either (f.typ == frame_ack) _ _ e
            (either (f.typ == frame_heartbeat) _ _ e (either (f.typ == frame_end) _ _ e e))))

unattached : (b attached : Bool) → b && (not true && not attached) ≡ false
unattached true attached = refl
unattached false attached = refl

state_of :
    (s : Session) (x : Option (Session × SendReply))
    → ((r : Session × SendReply) × (x ≡ some r))
    → EndKeeps (take_send_frame true) send_error (λ t. t ≡ s) x
    → (r : SendReply) × (x ≡ some (s, r))
state_of s none (r, e) k = absurd (cc e)
state_of s (some (t, r)) v k = (r, ap (λ u. some (u, r)) k)

-- A probe always gets an end, whatever its body is, and leaves the session exactly as it was.
pub poll_send_stream-probe :
    (attached : Bool) (max_send_bytes : ℕ) (s : Session) (body : Source)
    → (r : SendReply) × (poll_send_stream true attached max_send_bytes s body ≡ some (s, r))
unfolding poll_send_stream
poll_send_stream-probe attached max_send_bytes s body = rw (unattached (is_set s.rs) attached) (
    state_of s
      (read_frames (take_send_frame true) send_error max_send_bytes (suc (length body.bytes)) s
        body)
      (read_frames-Returns (take_send_frame true) send_error max_send_bytes
        (suc (length body.bytes)) s body (omega arith))
      (read_frames-Keeps (take_send_frame true) send_error (λ t. t ≡ s) (take_send_frame-Leaves s)
        max_send_bytes (suc (length body.bytes)) s body refl))

next-too_long :
    (max_payload typ : ℕ) (payload rest : List ℕ) (broken : Bool)
    → length payload < u32_mod
    → payload_limit typ max_payload < length payload
    → next max_payload (source (encoding typ payload ++ rest) broken)
      ≡ err (too_long (length payload) (payload_limit typ max_payload))
next-too_long max_payload typ payload rest broken small long =
    rw (append_assoc (header typ (length payload)) payload rest)
      (next-header max_payload typ (length payload) (payload ++ rest) broken small ∙ refused)
  where
    refused :
        read_payload max_payload (typ, length payload) (source (payload ++ rest) broken)
        ≡ err (too_long (length payload) (payload_limit typ max_payload))
    refused = unfold read_payload in ground arith

-- A frame longer than the bound for its type, anywhere in the body of an upload that the handler was
-- let in for, behind frames that fit: the handler does with those what it does with them anyway, and
-- unless one of them has ended the upload, it leaves without an answer of its own, with the session as
-- they left it. Nothing of the long frame, nor of what comes behind it, reaches the session.
pub poll_send_stream-too_long :
    (max_send_bytes : ℕ) (s : Session) (fs : List Frame) (typ : ℕ) (payload rest : List ℕ)
    (broken : Bool)
    → AllFit max_send_bytes fs
    → length payload < u32_mod
    → payload_limit typ max_send_bytes < length payload
    → poll_send_stream false true max_send_bytes s
        (source (encodings fs ++ (encoding typ payload ++ rest)) broken)
      ≡ some (feed (take_send_frame false) (λ e. dropped) s fs)
unfolding poll_send_stream send_error
poll_send_stream-too_long max_send_bytes s fs typ payload rest broken v small long =
    rw (attached_too (is_set s.rs)) (
      read_frames-then (take_send_frame false) send_error
        (too_long (length payload) (payload_limit typ max_send_bytes)) max_send_bytes
        (suc (length (encodings fs ++ (encoding typ payload ++ rest)))) s fs
        (encoding typ payload ++ rest) broken v
        (next-too_long max_send_bytes typ payload rest broken small long) (omega arith))
  where
    attached_too : (b : Bool) → b && (not false && not true) ≡ false
    attached_too true = refl
    attached_too false = refl
