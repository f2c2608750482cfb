-- ===== src/Media/Receive.antt =====
-- The payloads that a media session can receive, transport/owr_media_session.c. `objects` gives the
-- payload at an address; the payload type and the retransmission type are read as guint32.
pub mod Lookup
pub mod Retransmission
use openwebrtc.Prelude.{
  ℕ, Bool, true, false, ◌||◌, Option, none, some, List, [], ◌∷◌, ◌++◌, ◌==◌, if◌then◌else◌, Map,
  insert,
}
use openwebrtc.Prelude.Int.{ℤ, nonneg, to_uint32}
use openwebrtc.Media.{MediaSession}
use openwebrtc.Media.Payload.{Payload}

-- The map is freed if it has no fields.
abbrev pub unless_empty : Map ℕ → Option (Map ℕ)
unless_empty [] = none
unless_empty (e ∷ es) = some (e ∷ es)

module _ (objects : ℕ → Payload) where
  -- The loop of add_receive_payload, which stops at the first payload that is the same or has the
  -- same type.
  unfoldable pub payload_found : ℕ → List ℕ → Bool
  payload_found payload [] = false
  payload_found payload (p ∷ ps) =
      let further = payload_found payload ps in
      if p == payload || (objects p).payload_type == (objects payload).payload_type
      then true
      else further

  -- add_receive_payload on the main thread: a payload that is found is only warned about.
  unfoldable pub add_receive_payload : ℕ → MediaSession → MediaSession
  add_receive_payload payload s =
      if payload_found payload s.receive_payloads
      then s
      else record s { receive_payloads = s.receive_payloads ++ payload ∷ [] }

  abbrev pub rtx_uint : ℕ → ℕ
  rtx_uint p = to_uint32 ((objects p).rtx_payload_type)

  -- The loop of _owr_media_session_get_receive_payload with its variables payload and pt.
  unfoldable pub look_for : ℕ → List ℕ → Option ℕ → ℕ → Option ℕ × ℕ
  unfolding to_uint32
  look_for payload_type [] payload pt = (payload, pt)
  look_for payload_type (p ∷ ps) payload pt =
      let next = look_for payload_type ps (some p) (rtx_uint p) in
      if (objects p).payload_type == payload_type
      then (some p, (objects p).payload_type)
      else (if rtx_uint p == payload_type then (some p, rtx_uint p) else next)

  unfoldable pub get_receive_payload : ℕ → MediaSession → Option ℕ
  get_receive_payload payload_type s =
      let found = look_for payload_type s.receive_payloads none 0 in
      if found.1 == payload_type then found.0 else none

  unfoldable pub want_receive_rtx_in : List ℕ → Bool
  want_receive_rtx_in [] = false
  want_receive_rtx_in (p ∷ ps) =
      let further = want_receive_rtx_in ps in
      if nonneg ((objects p).rtx_payload_type) then true else further

  unfoldable pub want_receive_rtx : MediaSession → Bool
  want_receive_rtx s = want_receive_rtx_in s.receive_payloads

  -- The GstStructure of the map, whose fields are the payload types in decimal.
  unfoldable pub pt_map_from : Map ℕ → List ℕ → Map ℕ
  unfolding to_uint32
  pt_map_from pt_map [] = pt_map
  pt_map_from pt_map (p ∷ ps) =
      pt_map_from
        (if nonneg ((objects p).rtx_payload_type)
          then insert ((objects p).payload_type) (rtx_uint p) pt_map
          else pt_map)
        ps

  unfoldable pub get_receive_rtx_pt_map : MediaSession → Option (Map ℕ)
  get_receive_rtx_pt_map s = unless_empty (pt_map_from [] s.receive_payloads)
