-- ===== src/Batch.antt =====
-- batch.go: one numbered batch, at the server (pollBatchResumable, from its attachment on) and at the
-- client (doBatchPoll and doBatchSend, from the response on). The text of a header is parsed by
-- strconv.ParseUint, whose result, if it is one, stands for it here. `none` is a slice out of bounds.
pub mod Rewind
pub mod Acceptance
mod Runs
use pollmux.Base.{
  ℕ, Bool, true, false, not, ◌&&◌, ◌||◌, List, [], ◌∷◌, Option, none, some, length, ltb, leb, ◌==◌,
  if◌then◌else◌,
}
use pollmux.Pipe.{BufferedPipe, Wake, eof, pipe_interrupted}
use pollmux.Reliable.{
  Reliable, Chunk, LayerError, Receipt, NextOut, sends, idle, fails, waits, ack, recv_in,
  rewind_to_acked, next_out, replay_gap, bad_ack, pipe_closed,
}

-- batchOffset: exactly one value, and that a number.
unfoldable pub batch_offset : List (Option ℕ) → Option ℕ
batch_offset [] = none
batch_offset (v ∷ []) = v
batch_offset (v ∷ w ∷ more) = none

-- A direction's end: its layer and the two pipes it stands between.
pub record End : Type 0 where
  pub layer : Reliable
  pub inp : BufferedPipe
  pub out : BufferedPipe

-- What the server answers. `silent` is a request that a resume cancelled, `violation` a 413 after which
-- the session is closed, and `parked` a poll that still waits.
pub data BatchReply : Type 0 where
  refused : ℕ → BatchReply
  violation silent parked : BatchReply
  took : ℕ → BatchReply
  no_content : ℕ → BatchReply
  data_from : Chunk → ℕ → BatchReply

-- The upload's body, read up to max_send_bytes.
pub data Body : Type 0 where
  body : List ℕ → Body
  too_large broken_off : Body

abbrev recv_status : LayerError → ℕ
recv_status pipe_closed = 410
recv_status replay_gap = 400
recv_status bad_ack = 400

abbrev pub received : Option Receipt → Option (End × BatchReply)
received none = none
received (some r) = some (
  record { layer = r.layer; inp = r.inp; out = r.out },
  elim r.error [ none ↦ took r.layer.recv_offset | some e ↦ refused (recv_status e) ],
)

unfoldable pub after_send_ack :
    End → ℕ → List ℕ → Option (Reliable × Option LayerError) → Option (End × BatchReply)
after_send_ack s off bytes none = none
after_send_ack s off bytes (some (r, some e)) = some (record s { layer = r }, refused 400)
after_send_ack s off bytes (some (r, none)) = received (recv_in r s.inp s.out off bytes)

-- The send direction.
unfoldable pub take_upload : End → ℕ → ℕ → Body → Bool → Option (End × BatchReply)
take_upload s acked off too_large cancelled = some (s, violation)
take_upload s acked off broken_off cancelled = some (s, refused 400)
take_upload s acked off (body bytes) cancelled =
    if cancelled then some (s, silent) else after_send_ack s off bytes (ack s.layer acked)

-- The answer to what nextOut gave.
abbrev pub reply_to : Bool → Reliable → NextOut → BatchReply
reply_to true r given = silent
reply_to false r (sends c) =
    if length c.bytes == 0 then no_content r.recv_offset else data_from c r.recv_offset
reply_to false r idle = no_content r.recv_offset
reply_to false r waits = parked
reply_to false r (fails eof) = refused 410
reply_to false r (fails pipe_interrupted) = no_content r.recv_offset

abbrev pub polled_out :
    End
    → Bool
    → Option (Reliable × BufferedPipe × NextOut × List Wake)
    → Option (End × BatchReply × List Wake)
polled_out s cancelled none = none
polled_out s cancelled (some (r, out, given, ws)) =
    some (record s { layer = r; out = out }, reply_to cancelled r given, ws)

unfoldable pub after_poll_ack :
    End
    → ℕ
    → (Reliable → Reliable)
    → List Wake
    → Bool
    → Option (Reliable × Option LayerError)
    → Option (End × BatchReply × List Wake)
after_poll_ack s dst meanwhile ws cancelled none = none
after_poll_ack s dst meanwhile ws cancelled (some (r, some e)) =
    some (record s { layer = r }, refused 400, ws)
after_poll_ack s dst meanwhile ws cancelled (some (r, none)) =
    polled_out s cancelled (next_out (rewind_to_acked r) s.out dst meanwhile ws)

-- The receive direction; `cancelled` and `stopped` are the two tests of the context, before the
-- acknowledgement and after nextOut.
unfoldable pub answer_poll :
    End
    → ℕ
    → ℕ
    → (Reliable → Reliable)
    → List Wake
    → Bool
    → Bool
    → Option (End × BatchReply × List Wake)
answer_poll s acked dst meanwhile ws cancelled stopped =
    if cancelled
    then some (s, silent, ws)
    else after_poll_ack s dst meanwhile ws stopped (ack s.layer acked)

-- The client's side of a poll: the body up to one byte more than poll_buffer_bytes, or the error that
-- reading it met, which may be a timeout.
pub data Reading : Type 0 where
  bytes_read : List ℕ → Reading
  timed_out read_error : Reading

pub record Response : Type 0 where
  pub status : ℕ
  pub content : Reading
  pub recv_header : List (Option ℕ)
  pub send_header : List (Option ℕ)

pub data BatchError : Type 0 where
  transport_error body_timeout body_error oversized empty_200 bad_header extra_body : BatchError
  fatal_status : ℕ → BatchError
  layer_error : LayerError → BatchError

-- What doBatchPoll returns, and the end it leaves: whether there were data, or an error.
pub record Polled : Type 0 where
  pub end : End
  pub result : Bool
  pub error : Option BatchError

abbrev pub failing : End → BatchError → Polled
failing s e = record { end = s; result = false; error = some e }

-- The acknowledgement comes last.
abbrev pub acknowledged : End → Bool → Option (Reliable × Option LayerError) → Option Polled
acknowledged s got none = none
acknowledged s got (some (r, none)) =
    some (record { end = record s { layer = r }; result = got; error = none })
acknowledged s got (some (r, some e)) = some (failing (record s { layer = r }) (layer_error e))

abbrev pub taken_in : ℕ → Option Receipt → Option Polled
taken_in acked none = none
taken_in acked (some r) =
    let s : End = record { layer = r.layer; inp = r.inp; out = r.out } in
    elim r.error [
      | none ↦ acknowledged s true (ack r.layer acked)
      | some e ↦ some (failing s (layer_error e))
    ]

unfoldable pub take_in : End → List ℕ → Option ℕ → Option ℕ → Option Polled
take_in s bytes none off = some (failing s bad_header)
take_in s bytes (some acked) none = some (failing s bad_header)
take_in s bytes (some acked) (some off) = taken_in acked (recv_in s.layer s.inp s.out off bytes)

unfoldable pub take_idle : End → List ℕ → Option ℕ → Option Polled
take_idle s bytes none = some (failing s bad_header)
take_idle s bytes (some acked) = acknowledged s (ltb 0 (length bytes)) (ack s.layer acked)

unfoldable pub read_poll : End → ℕ → Response → Reading → Option Polled
read_poll s max_frame resp timed_out =
    some (failing s (if resp.status == 200 then body_timeout else body_error))
read_poll s max_frame resp read_error = some (failing s body_error)
read_poll s max_frame resp (bytes_read bytes) =
    if ltb max_frame (length bytes)
    then some (failing s oversized)
    else if resp.status == 200 && leb (length bytes) 0
    then some (failing s empty_200)
    else if resp.status == 200
    then take_in s bytes (batch_offset resp.recv_header) (batch_offset resp.send_header)
    else take_idle s bytes (batch_offset resp.recv_header)

unfoldable pub do_batch_poll : End → ℕ → Option Response → Option Polled
do_batch_poll s max_frame none = some (failing s transport_error)
do_batch_poll s max_frame (some resp) =
    if not (resp.status == 200) && not (resp.status == 204)
    then some (failing s (fatal_status resp.status))
    else read_poll s max_frame resp resp.content

unfoldable pub read_send : End → List (Option ℕ) → Reading → Option Polled
read_send s header timed_out = some (failing s body_error)
read_send s header read_error = some (failing s body_error)
read_send s header (bytes_read (b ∷ more)) = some (failing s extra_body)
read_send s header (bytes_read []) = elim (batch_offset header) [
  | none ↦ some (failing s bad_header)
  | some acked ↦ acknowledged s false (ack s.layer acked)
]

-- doBatchSend, which returns no Boolean.
unfoldable pub do_batch_send : End → Option Response → Option Polled
do_batch_send s none = some (failing s transport_error)
do_batch_send s (some resp) =
    if not (resp.status == 200)
    then some (failing s (fatal_status resp.status))
    else read_send s resp.recv_header resp.content
