-- ===== src/LocalSource/Events.antt =====
-- The operations of a local media source, local/owr_local_media_source.c, in any order, and how many
-- users they leave.
use openwebrtc.Prelude.{ℕ, suc, ◌-◌, Bool, true, List, [], ◌∷◌}
use openwebrtc.Outcome.{Outcome, ok, ◌>>=◌}
use openwebrtc.LocalSource.{
  LocalMediaSource, request_source, release_source, run_task, set_volume, set_mute,
}

-- A source that can set its volume is requested, a pad is released, the main loop makes a scheduled
-- call, the application sets the volume or mutes.
pub data Event : Type 0 where
  requested released task_run : Event
  volume_set : ℕ → Event
  mute_set : Bool → Event

abbrev pub requested_only : Outcome (LocalMediaSource × Bool) → Outcome LocalMediaSource
requested_only r = r >>= λ p. ok (p.0)

unfoldable pub step : LocalMediaSource → Event → Outcome LocalMediaSource
step s requested = requested_only (request_source true s)
step s released = ok (release_source s)
step s task_run = run_task s
step s (volume_set v) = set_volume v s
step s (mute_set b) = set_mute b s

unfoldable pub run : LocalMediaSource → List Event → Outcome LocalMediaSource
run s [] = ok s
run s (e ∷ es) = step s e >>= λ s'. run s' es

-- How many users there are.
abbrev pub users_after : ℕ → Event → ℕ
users_after n requested = suc n
users_after n released = n - 1
users_after n _ = n

abbrev pub users : ℕ → List Event → ℕ
users n [] = n
users n (e ∷ es) = users (users_after n e) es
