-- ===== src/Connect/Runs.antt =====
-- handler.go: the theorems on ConnectHandler at work.

use pollmux.Base.{◌≡◌, refl, true, false, [], ◌∷◌, pos, negsuc}
use pollmux.Session.{new_session}
use pollmux.Store.{SessionStore}
use pollmux.Config.{ServerConfig, ConnectRequest, stream_mode, negotiate_resume}
use pollmux.Connect.{resumes}

abbrev server : ServerConfig
server = record {
  poll_timeout = pos 30000000000;
  session_timeout = pos 60000000000;
  sweep_interval = pos 5000000000;
  coalesce_window = pos 2000000;
  poll_buffer_size = pos 262144;
  max_send_bytes = pos 1048576;
  high_water_warn = pos 0;
  poll_mode = stream_mode;
  heartbeat_interval = pos 10000000000;
  stream_max_duration = pos 45000000000;
  enable_websocket = false;
  enable_resume = true;
  resume_grace = pos 30000000000;
  max_replay_bytes = pos 16777216;
  max_detached_resumable = pos 1024;
  logger = true;
}

-- Streams downwards, batches upwards, and resumes.
abbrev mixed : ConnectRequest
mixed = record {
  protocol_version = pos 1;
  meta = ("role", "provider") ∷ [];
  prefer_stream_mode = true;
  prefer_stream_upload = false;
  prefer_websocket = true;
  prefer_resume = true;
  batch_resume = true;
  poll_interval_ms = negsuc 4;
}

abbrev two_sessions : SessionStore
two_sessions = record {
  heap = λ p. new_session "aa" [] 5;
  sessions = ("aa", 0) ∷ ("bb", 1) ∷ [];
  max_detached_resumable = 4;
}

mixed_agreed : resumes server mixed ≡ true
unfolding resumes negotiate_resume
mixed_agreed = refl
