-- ===== src/Config/Runs.antt =====
-- handler.go: the theorems on the configuration at work.
use pollmux.Base.{◌≡◌, refl, true, false, none, pos, negsuc}
use pollmux.Config.{ServerConfig, stream_mode, check, below_twice}

abbrev config : ServerConfig
config = record {
  poll_timeout = pos 3000000;
  session_timeout = negsuc 0;
  sweep_interval = pos 0;
  coalesce_window = pos 0;
  poll_buffer_size = pos 0;
  max_send_bytes = negsuc 7;
  high_water_warn = pos 0;
  poll_mode = stream_mode;
  heartbeat_interval = pos 0;
  stream_max_duration = pos 0;
  enable_websocket = false;
  enable_resume = true;
  resume_grace = pos 300000000000;
  max_replay_bytes = pos 0;
  max_detached_resumable = negsuc 0;
  logger = false;
}

config_checks : check config ≡ none
unfolding check below_twice
config_checks = refl
