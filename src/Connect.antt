-- ===== src/Connect.antt =====
-- ConnectHandler of handler.go: the session that comes of a connect, and what its client is told.
-- The hooks, the body's decoding and the random id are the environment: their results are arguments,
-- and so is the address of the new session.
pub mod Agreement
mod Runs
use Prim.Native.String.{String}
use text.Mathlib.Text.{◌==◌ as str_eq}
use pollmux.Base.{
  ℕ, ◌+◌, ◌*◌, min, Bool, true, false, not, ◌&&◌, ◌||◌, List, [], ◌∷◌, Option, none, some, ℤ, pos,
  negsuc, pos_part, ◌==◌, if◌then◌else◌,
}
use pollmux.Reliable.{Reliable, disable_eager_ack}
use pollmux.Session.{
  PollMode, Session, batch, stream, new_session, enable_resume, watch_session, close_once,
}
use pollmux.Store.{SessionStore, update, add, remove}
use pollmux.Config.{
  is_protocol_version, ServerConfig, ConnectRequest, Limits, limits, milliseconds, millisecond,
  batch_poll_gap_allowance, is_stream, negotiate_poll_mode, negotiate_resume,
}

-- maps.Copy, on a map as the list of its entries.
unfoldable pub delete_key : String → List (String × String) → List (String × String)
delete_key k [] = []
delete_key k ((k', v) ∷ m) = if str_eq k' k then delete_key k m else (k', v) ∷ delete_key k m

unfoldable pub copy : List (String × String) → List (String × String) → List (String × String)
copy [] m = m
copy ((k, v) ∷ more) m = copy more ((k, v) ∷ delete_key k m)

-- What the handler gets on the way: the hook's answer, the id, and OnConnect's verdict.
pub data Authenticated : Type 0 where
  vouched : List (String × String) → Authenticated
  denied : ℕ → Authenticated

pub record ConnectResponse : Type 0 where
  pub session_id : String
  pub limits : Limits
  pub meta : List (String × String)
  pub poll_mode : PollMode
  pub upload_stream : Bool
  pub websocket : Bool
  pub resumable : Bool
  pub batch_resume : Bool

-- The batch direction's own settings of a resumable session.
abbrev pub lone_eager : Option Reliable → Option Reliable
lone_eager none = none
lone_eager (some r) = some (disable_eager_ack r)

unfoldable pub poll_gap_of : ServerConfig → ConnectRequest → ℕ
poll_gap_of cfg req =
    min (pos_part req.poll_interval_ms) (pos_part (milliseconds cfg.resume_grace)) * millisecond
    + batch_poll_gap_allowance

unfoldable pub set_up_resume : ServerConfig → ConnectRequest → Session → Session
set_up_resume cfg req s =
    let r : Session = record (enable_resume s cfg.max_replay_bytes (pos_part cfg.resume_grace)) {
      batch_resume = req.batch_resume;
    } in
    if s.websocket || s.upload_stream then r else record r {
      rs = lone_eager r.rs;
      poll_gap = if is_stream s.poll_mode then r.poll_gap else poll_gap_of cfg req;
    }

abbrev pub wants_websocket : ServerConfig → ConnectRequest → Bool
wants_websocket cfg req = cfg.enable_websocket && req.prefer_websocket

unfoldable pub resumes : ServerConfig → ConnectRequest → Bool
resumes cfg req =
    negotiate_resume cfg req (wants_websocket cfg req)
      (negotiate_poll_mode cfg.poll_mode req.prefer_stream_mode)
      (negotiate_poll_mode cfg.poll_mode req.prefer_stream_upload)

-- The session that is published.
unfoldable pub set_up :
    ServerConfig → ConnectRequest → String → List (String × String) → ℕ → Session
set_up cfg req id meta now =
    let s : Session =
      record (watch_session
        (record (new_session id meta now) {
          poll_mode = negotiate_poll_mode cfg.poll_mode req.prefer_stream_mode;
          upload_stream = is_stream (negotiate_poll_mode cfg.poll_mode req.prefer_stream_upload);
        })
        cfg.high_water_warn cfg.logger) { websocket = wants_websocket cfg req } in
    if resumes cfg req then set_up_resume cfg req s else s

-- limitsMode.
unfoldable pub limits_mode : ServerConfig → ConnectRequest → PollMode
limits_mode cfg req =
    if wants_websocket cfg req
      || is_stream (negotiate_poll_mode cfg.poll_mode req.prefer_stream_upload)
    then stream
    else negotiate_poll_mode cfg.poll_mode req.prefer_stream_mode

unfoldable pub respond :
    ServerConfig → ConnectRequest → String → List (String × String) → ConnectResponse
respond cfg req id meta = record {
  session_id = id;
  limits = limits cfg (limits_mode cfg req) (resumes cfg req);
  meta = meta;
  poll_mode = negotiate_poll_mode cfg.poll_mode req.prefer_stream_mode;
  upload_stream = is_stream (negotiate_poll_mode cfg.poll_mode req.prefer_stream_upload);
  websocket = wants_websocket cfg req;
  resumable = resumes cfg req;
  batch_resume = resumes cfg req && req.batch_resume;
}

pub data Answer : Type 0 where
  connected : ConnectResponse → Answer
  rejected : ℕ → Answer

-- From the id on: the session is put at `p` and added before OnConnect runs.
unfoldable pub publish :
    ServerConfig
    → SessionStore
    → ConnectRequest
    → List (String × String)
    → Option String
    → Bool
    → ℕ
    → ℕ
    → SessionStore × Answer
publish cfg st req meta none accepts p now = (st, rejected 500)
publish cfg st req meta (some id) accepts p now =
    let s = set_up cfg req id meta now in
    let added = add (record st { heap = update st.heap p s }) p in
    if accepts
    then (added, connected (respond cfg req id meta))
    else (record (remove added id) { heap = update added.heap p (close_once s).0 }, rejected 500)

unfoldable pub vetted :
    ServerConfig
    → SessionStore
    → ConnectRequest
    → Authenticated
    → Option String
    → Bool
    → ℕ
    → ℕ
    → SessionStore × Answer
vetted cfg st req (denied status) id accepts p now = (st, rejected status)
vetted cfg st req (vouched meta) id accepts p now =
    publish cfg st req (copy meta req.meta) id accepts p now

-- ConnectHandler's function, for a configuration that check and withDefaults have passed on; no
-- request is one that does not decode.
unfoldable pub connect :
    ServerConfig
    → SessionStore
    → Option ConnectRequest
    → Authenticated
    → Option String
    → Bool
    → ℕ
    → ℕ
    → SessionStore × Answer
connect cfg st none auth id accepts p now = (st, rejected 400)
connect cfg st (some req) auth id accepts p now =
    if not (is_protocol_version req.protocol_version)
    then (st, rejected 426)
    else vetted cfg st req auth id accepts p now
