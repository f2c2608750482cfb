-- ===== src/Tests/LocalSource.antt =====
-- A video source with two users, and a microphone whose volume is set after it has stopped.
use openwebrtc.Prelude.{◌≡◌, refl, false, none, List, [], ◌∷◌}
use openwebrtc.Outcome.{ok, fault, use_after_free, ◌>>=◌}
use openwebrtc.LocalSource.{
  MediaType, SourceType, LocalMediaSource, new_pipeline, request_source_default, request_source,
  release_source, shutdown_media_source, run_task, set_volume,
}
use openwebrtc.LocalSource.Events.{Event, requested, released, task_run, run, users}
use openwebrtc.LocalSource.Used.{IsAlive, run-IsAlive}

abbrev camera : LocalMediaSource
camera = record {
  media_type = MediaType.video;
  source_type = SourceType.capture;
  volume = 8;
  mute = false;
  source_volume = none;
  source_bin = none;
  source_tee = none;
  tasks = 0;
}

abbrev events : List Event
events = requested ∷ requested ∷ released ∷ released ∷ requested ∷ task_run ∷ []

run-IsAlive_example :
    (s' : LocalMediaSource) × (run camera events ≡ ok s') × IsAlive (users 0 events) s'
run-IsAlive_example =
    run-IsAlive events 0 camera (record { known = refl; no_element = refl; alive = refl })

abbrev microphone : LocalMediaSource
microphone = record camera { media_type = MediaType.audio }

freed_test :
    (request_source false microphone >>= λ p.
    run_task (release_source (p.0)) >>= λ s. set_volume 5 s)
    ≡ fault use_after_free
unfolding request_source request_source_default new_pipeline release_source run_task
    shutdown_media_source set_volume
freed_test = refl
