-- ===== src/LocalSource.antt =====
-- Local media sources, local/owr_local_media_source.c, with what they use of owr/owr_media_source.c:
-- when the pipeline of a source is made and shut down, and the element that sets the volume. The
-- tee is known by the number of its pads; volumes are numbers that stand for doubles. A pad is
-- released at once, and the messages that are posted are left out.
pub mod Events
pub mod Used
use openwebrtc.Prelude.{
  ℕ, suc, ◌+◌, ◌-◌, Bool, true, false, not, ◌&&◌, Option, none, some, ◌==◌, if◌then◌else◌,
}
use openwebrtc.Outcome.{Outcome, ok, fault, assertion, use_after_free, ◌>>=◌}

pub data MediaType : Type 0 where
  unknown audio video : MediaType

pub data SourceType : Type 0 where
  unknown capture test : SourceType

-- The element audio-source-volume, with its references. One with none left is freed memory.
pub record VolumeElement : Type 0 where
  pub refs : ℕ
  pub element_volume : ℕ
  pub element_mute : Bool

pub record LocalMediaSource : Type 0 where
  pub media_type : MediaType
  pub source_type : SourceType
  pub volume : ℕ
  pub mute : Bool
  pub source_volume : Option VolumeElement
  pub source_bin : Option Bool  -- whether source_volume is in the pipeline
  pub source_tee : Option ℕ  -- numsrcpads
  pub tasks : ℕ  -- the calls of shutdown_media_source that are scheduled

-- What of request_source does not depend on the pipeline: both types must be known.
abbrev pub is_known : MediaType → SourceType → Bool
is_known MediaType.unknown t = false
is_known m SourceType.unknown = false
is_known m t = true

abbrev pub is_audio : MediaType → Bool
is_audio MediaType.audio = true
is_audio _ = false

abbrev pub is_unknown : MediaType → Bool
is_unknown MediaType.unknown = true
is_unknown _ = false

-- A new pipeline. Where the source cannot set its volume, an element is made that can, of which the
-- pipeline and the source have a reference each.
unfoldable pub new_pipeline : (is_stream_volume : Bool) → LocalMediaSource → LocalMediaSource
new_pipeline is_stream_volume s =
    if is_audio s.media_type && not is_stream_volume
    then record s {
      source_bin = some true;
      source_tee = some 0;
      source_volume = some (record { refs = 2; element_volume = s.volume; element_mute = s.mute });
    }
    else record s { source_bin = some false; source_tee = some 0 }

-- owr_media_source_request_source_default: a pad of the tee, or NULL.
abbrev pub add_pad : Option Bool → Option ℕ → LocalMediaSource → LocalMediaSource × Bool
add_pad (some b) (some pads) s = (record s { source_tee = some (suc pads) }, true)
add_pad _ _ s = (s, false)

unfoldable pub request_source_default : LocalMediaSource → Outcome (LocalMediaSource × Bool)
request_source_default s =
    let result = add_pad s.source_bin s.source_tee s in
    if result.1 && is_unknown s.media_type then fault assertion else ok result

abbrev pub request_from : Option Bool → Bool → LocalMediaSource → Outcome (LocalMediaSource × Bool)
request_from (some b) is_stream_volume s = request_source_default s
request_from none is_stream_volume s =
    if is_known s.media_type s.source_type
    then request_source_default (new_pipeline is_stream_volume s)
    else ok (s, false)

unfoldable pub request_source :
    (is_stream_volume : Bool) → LocalMediaSource → Outcome (LocalMediaSource × Bool)
request_source is_stream_volume s = request_from s.source_bin is_stream_volume s

-- tee_pad_removed_cb, after a pad has been removed.
abbrev pub without_pad : Option ℕ → LocalMediaSource → LocalMediaSource
without_pad none s = s
without_pad (some pads) s = if pads == 0 then s else record s {
  source_tee = some (pads - 1);
  tasks = if pads - 1 == 0 then suc s.tasks else s.tasks;
}

unfoldable pub release_source : LocalMediaSource → LocalMediaSource
release_source s = without_pad s.source_tee s

abbrev pub unref : VolumeElement → Outcome VolumeElement
unref e = if e.refs == 0 then fault use_after_free else ok (record e { refs = e.refs - 1 })

-- gst_object_unref of source_volume; the pointer stays.
abbrev pub unref_volume : Option VolumeElement → LocalMediaSource → Outcome LocalMediaSource
unref_volume none s = ok s
unref_volume (some e) s = unref e >>= λ e'. ok (record s { source_volume = some e' })

-- The end of the pipeline gives back its reference.
abbrev pub end_pipeline : Bool → LocalMediaSource → Outcome LocalMediaSource
end_pipeline in_pipeline s =
    let s' = record s { source_bin = none; source_tee = none } in
    if in_pipeline then unref_volume s'.source_volume s' else ok s'

abbrev pub unless_used : Option Bool → Option ℕ → LocalMediaSource → Outcome LocalMediaSource
unless_used (some b) (some pads) s = if pads == 0 then end_pipeline b s else ok s
unless_used _ _ s = ok s

unfoldable pub shutdown_media_source : LocalMediaSource → Outcome LocalMediaSource
shutdown_media_source s =
    unref_volume s.source_volume s >>= λ s'. unless_used s'.source_bin s'.source_tee s'

-- The main loop makes one of the scheduled calls, if there is one.
unfoldable pub run_task : LocalMediaSource → Outcome LocalMediaSource
run_task s = if s.tasks == 0 then ok s else shutdown_media_source (record s { tasks = s.tasks - 1 })

-- The property volume; with no element of its own, the source is asked, if it is there.
abbrev pub set_element_volume :
    Option VolumeElement → ℕ → LocalMediaSource → Outcome LocalMediaSource
set_element_volume none v s = ok s
set_element_volume (some e) v s =
    if e.refs == 0
    then fault use_after_free
    else ok (record s { source_volume = some (record e { element_volume = v }) })

unfoldable pub set_volume : ℕ → LocalMediaSource → Outcome LocalMediaSource
set_volume v s =
    if is_audio s.media_type
    then set_element_volume s.source_volume v (record s { volume = v })
    else ok s

abbrev pub set_element_mute :
    Option VolumeElement → Bool → LocalMediaSource → Outcome LocalMediaSource
set_element_mute none v s = ok s
set_element_mute (some e) v s =
    if e.refs == 0
    then fault use_after_free
    else ok (record s { source_volume = some (record e { element_mute = v }) })

unfoldable pub set_mute : Bool → LocalMediaSource → Outcome LocalMediaSource
set_mute v s =
    if is_audio s.media_type
    then set_element_mute s.source_volume v (record s { mute = v })
    else ok s
