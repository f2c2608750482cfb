-- ===== src/DataSession.antt =====
-- Data sessions, transport/owr_data_session.c: the table of data channels by id, the closure by
-- which the transport agent hears of a new one, and the parameters of the SCTP elements. Channels
-- and closures are numbers.
pub mod Channels
use openwebrtc.Prelude.{
  ℕ, ◌+◌, ◌%◌, ◌^◌, Bool, true, false, Option, none, some, List, [], ◌∷◌, ◌++◌, Map, lookup, insert,
  map,
}
use openwebrtc.Session.{OwrSession}
use openwebrtc.Session as Session
use openwebrtc.Agent as Agent

pub record DataSession : Type 0 where
  pub base : OwrSession
  pub local_sctp_port : ℕ  -- guint16
  pub remote_sctp_port : ℕ
  pub use_sock_stream : Bool
  pub data_channels : Map ℕ
  pub on_datachannel_added : Option ℕ
  pub sctp_association_id : ℕ

-- get_next_association_id on its static variable: the new value, which is the result too.
unfoldable pub get_next_association_id : ℕ → ℕ
get_next_association_id last = (last + 1) % 2 ^ 32

-- owr_data_session_init, with the last association id.
unfoldable pub init : ℕ → DataSession
unfolding get_next_association_id
init last = record {
  base = Session.init;
  local_sctp_port = 0;
  remote_sctp_port = 0;
  use_sock_stream = false;
  data_channels = [];
  on_datachannel_added = none;
  sctp_association_id = get_next_association_id last;
}

-- A property of the class, or one of the base's.
pub data Property : Type 0 where
  sctp_local_port sctp_remote_port : ℕ → Property
  sock_stream : Bool → Property
  of_session : Session.Property → Property

unfoldable pub set_property : DataSession → Property → DataSession
set_property s (sctp_local_port n) = record s { local_sctp_port = n % 2 ^ 16 }
set_property s (sctp_remote_port n) = record s { remote_sctp_port = n % 2 ^ 16 }
set_property s (sock_stream b) = record s { use_sock_stream = b }
set_property s (of_session p) = record s { base = Session.set_property s.base p }

-- What the functions below do to channels and closures, in order.
pub data Effect : Type 0 where
  channel_ref channel_unref : ℕ → Effect
  channel_added : (closure channel : ℕ) → Effect

abbrev pub invoke_added : Option ℕ → ℕ → List Effect
invoke_added none c = []
invoke_added (some f) c = channel_added f c ∷ []

unfoldable pub add_at : ℕ → ℕ → Option ℕ → DataSession → DataSession × List Effect
add_at c id (some old) s = (s, channel_unref c ∷ [])
add_at c id none s = (
  record s { data_channels = insert id c s.data_channels },
  invoke_added s.on_datachannel_added c,
)

-- owr_data_session_add_data_channel and the add_data_channel that it schedules: a channel whose id is
-- taken is only warned about.
unfoldable pub add_data_channel : ℕ → ℕ → DataSession → DataSession × List Effect
add_data_channel c id s =
    let r = add_at c id (lookup id s.data_channels) s in (r.0, channel_ref c ∷ r.1)

-- The methods on closures return the closures that they invalidate and release.
abbrev pub released : Option ℕ → List (ℕ × Bool)
released none = []
released (some f) = (f, true) ∷ []

unfoldable pub set_on_datachannel_added : Option ℕ → DataSession → DataSession × List (ℕ × Bool)
set_on_datachannel_added f s =
    (record s { on_datachannel_added = f }, released s.on_datachannel_added)

unfoldable pub clear_closures : DataSession → DataSession × List (ℕ × Bool)
clear_closures s =
    let r = Session.clear_closures s.base in
    (record s { on_datachannel_added = none; base = r.0 }, released s.on_datachannel_added ++ r.1)

unfoldable pub get_datachannel : ℕ → DataSession → Option ℕ
get_datachannel id s = lookup (id % 2 ^ 16) s.data_channels

unfoldable pub get_datachannels : DataSession → List ℕ
get_datachannels s = map (λ e. e.1) s.data_channels

-- The parameters that the SCTP elements of a session are made with: the number in their names, the
-- association and the ports. A session's decoder and encoder have one association.
pub record SctpElement : Type 0 where
  pub name_suffix : ℕ
  pub association_id : ℕ
  pub port : ℕ
  pub sock_stream : Option Bool

unfoldable pub create_decoder : DataSession → SctpElement
create_decoder s = record {
  name_suffix = s.sctp_association_id;
  association_id = s.sctp_association_id;
  port = s.local_sctp_port;
  sock_stream = none;
}

unfoldable pub create_encoder : DataSession → SctpElement
create_encoder s = record {
  name_suffix = s.sctp_association_id;
  association_id = s.sctp_association_id;
  port = s.remote_sctp_port;
  sock_stream = some s.use_sock_stream;
}

-- What the transport agent reads of a session.
abbrev pub agent_view : DataSession → Agent.Session
agent_view s = record {
  dtls_client_mode = s.base.dtls_client_mode;
  data_channels = s.data_channels;
}
