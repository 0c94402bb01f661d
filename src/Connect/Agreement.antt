-- ===== src/Connect/Agreement.antt =====
-- handler.go: what ConnectHandler leaves in the store, and what it tells the client.
use Prim.Native.String.{String}
use pollmux.Base.{ℕ, ◌≡◌, ◌⊎◌, true, false, Option, none, some, arith}
use pollmux.Session.{Session, enable_resume, resumable}
use pollmux.Store.{SessionStore, get}
use pollmux.Config.{
  stream_mode, ServerConfig, ConnectRequest, negotiate_poll_mode, negotiate_resume,
}
use pollmux.Connect.{Answer, ConnectResponse, connected, rejected, wants_websocket, resumes}

-- A session that does what the response says.
abbrev pub Agrees : Session → ConnectResponse → Type 0
Agrees s r =
    (s.id ≡ r.session_id)
    × (s.meta ≡ r.meta)
    × (s.poll_mode ≡ r.poll_mode)
    × (s.upload_stream ≡ r.upload_stream)
    × (s.websocket ≡ r.websocket)
    × (resumable s ≡ r.resumable)
    × (s.batch_resume ≡ r.batch_resume)
    × (s.closed ≡ false)

-- The random id is no session's yet.
abbrev pub IsFresh : SessionStore → Option String → Type 0
IsFresh st none = Unit
IsFresh st (some id) = get st id ≡ none

-- A connect is all or nothing: on success the store has the session, and it does what the response
-- says; otherwise every id leads where it led before.
abbrev pub Settled : SessionStore → ℕ → SessionStore × Answer → Type 0
Settled st p (st', connected r) = (get st' r.session_id ≡ some p) × Agrees (st'.heap p) r
Settled st p (st', rejected status) = (k : String) → get st' k ≡ get st k

-- A session is made resumable only if the server enables it and the client asks for it, and either
-- the client knows numbered batches or none of the session's directions is a batch.
pub resumes_needs :
    (cfg : ServerConfig) (req : ConnectRequest)
    → resumes cfg req ≡ true
    → (cfg.enable_resume ≡ true)
      × (req.prefer_resume ≡ true)
      × ((req.batch_resume ≡ true)
          ⊎ ((wants_websocket cfg req ≡ true)
              ⊎ ((cfg.poll_mode ≡ stream_mode)
                  × (req.prefer_stream_mode ≡ true)
                  × (req.prefer_stream_upload ≡ true))))
unfolding resumes negotiate_resume negotiate_poll_mode
resumes_needs cfg req h = (ground (arith, h), ground (arith, h), ground (arith, h))
