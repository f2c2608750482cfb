-- ===== src/Media/Send.antt =====
-- What a media session sends, transport/owr_media_session.c: the payload and the source, with the
-- references that their setters take and give back.
pub mod References
use openwebrtc.Prelude.{ℕ, Option, none, some, List, [], ◌∷◌, ◌++◌}
use openwebrtc.Media.{MediaSession}

-- What a function does to objects and closures, in order. A GValue takes a reference when an object
-- is put into it, and gives it back when it is unset.
pub data Effect : Type 0 where
  object_ref object_unref : ℕ → Effect
  closure_invoked : (closure : ℕ) → (old new : Option ℕ) → Effect
  closure_invalidated closure_unref : ℕ → Effect

abbrev pub ref : Option ℕ → List Effect
ref none = []
ref (some o) = object_ref o ∷ []

abbrev pub unref : Option ℕ → List Effect
unref none = []
unref (some o) = object_unref o ∷ []

-- The call of on_send_payload: the third of its values is not unset.
abbrev pub call_on_send_payload : Option ℕ → Option ℕ → Option ℕ → List Effect
call_on_send_payload none old new = []
call_on_send_payload (some f) old new =
    ref old ++ ref new ++ closure_invoked f old new ∷ [] ++ unref old

unfoldable pub set_send_payload : Option ℕ → MediaSession → MediaSession × List Effect
set_send_payload payload s = (
  record s { send_payload = payload },
  ref s.send_payload
      ++ unref s.send_payload
      ++ call_on_send_payload s.on_send_payload s.send_payload payload,
)

abbrev pub call_on_send_source : Option ℕ → Option ℕ → Option ℕ → List Effect
call_on_send_source none old new = []
call_on_send_source (some f) old new =
    ref old ++ ref new ++ closure_invoked f old new ∷ [] ++ unref old ++ unref new

unfoldable pub set_send_source : Option ℕ → MediaSession → MediaSession × List Effect
set_send_source source s = (
  record s { send_source = source },
  ref s.send_source
      ++ unref s.send_source
      ++ call_on_send_source s.on_send_source s.send_source source,
)

-- The getters return the object with a reference for the caller.
unfoldable pub get_send_payload : MediaSession → Option ℕ × List Effect
get_send_payload s = (s.send_payload, ref s.send_payload)

unfoldable pub get_send_source : MediaSession → Option ℕ × List Effect
get_send_source s = (s.send_source, ref s.send_source)

abbrev pub drop_closure : Option ℕ → List Effect
drop_closure none = []
drop_closure (some f) = closure_unref f ∷ []

abbrev pub end_closure : Option ℕ → List Effect
end_closure none = []
end_closure (some f) = closure_invalidated f ∷ closure_unref f ∷ []

unfoldable pub set_on_send_payload : ℕ → MediaSession → MediaSession × List Effect
set_on_send_payload f s = (record s { on_send_payload = some f }, drop_closure s.on_send_payload)

unfoldable pub set_on_send_source : ℕ → MediaSession → MediaSession × List Effect
set_on_send_source f s = (record s { on_send_source = some f }, drop_closure s.on_send_source)

-- _owr_media_session_clear_closures, without the base's closures, which Session.clear_closures ends.
unfoldable pub clear_closures : MediaSession → MediaSession × List Effect
clear_closures s = (
  record s { on_send_payload = none; on_send_source = none },
  end_closure s.on_send_payload ++ end_closure s.on_send_source,
)
