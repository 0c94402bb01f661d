-- ===== src/Config/Bounds.antt =====
-- handler.go and protocol.go: the bounds that the configuration's numbers keep.
use pollmux.Base.{◌<◌, ◌≤◌, ◌*◌, ◌≡◌, ◌⊎◌, true, none, ℤ, ◌^◌, pos_part, arith}
use pollmux.Config.{
  ServerConfig, or_default, with_defaults, millisecond, max_resume_grace, check, below_twice,
  is_known,
}

-- A duration that is left unset, or long enough to survive the conversion to milliseconds.
abbrev pub IsWhole : ℤ → Type 0
IsWhole d = (pos_part d ≡ 0) ⊎ (millisecond ≤ pos_part d)

-- A configuration that check lets pass has, after the defaults, sizes and timeouts that are positive, a
-- known poll mode and a resume grace of at most MaxResumeGrace; and where both timeouts are set, and
-- the poll's is below 2 ^ 62 ns, a session times out only after two polls.
pub check-with_defaults :
    (cfg : ServerConfig)
    → check cfg ≡ none
    → (0 < pos_part (with_defaults cfg).poll_timeout)
      × (0 < pos_part (with_defaults cfg).session_timeout)
      × (0 < pos_part (with_defaults cfg).poll_buffer_size)
      × (0 < pos_part (with_defaults cfg).max_send_bytes)
      × (0 < pos_part (with_defaults cfg).resume_grace)
      × (pos_part (with_defaults cfg).resume_grace ≤ max_resume_grace)
      × (is_known (with_defaults cfg).poll_mode ≡ true)
      × ((pos_part cfg.poll_timeout ≡ 0)
          ⊎ ((pos_part cfg.session_timeout ≡ 0)
              ⊎ ((2 ^ 62 ≤ pos_part cfg.poll_timeout)
                  ⊎ (2 * pos_part (with_defaults cfg).poll_timeout
                      ≤ pos_part (with_defaults cfg).session_timeout))))
unfolding check with_defaults or_default below_twice
check-with_defaults cfg h = (
  ground arith,
  ground arith,
  ground arith,
  ground arith,
  ground arith,
  ground (arith, h),
  ground (arith, h),
  ground (arith, h),
)
