-- ===== src/DataChannel.antt =====
-- The application's data channel object, transport/owr_data_channel.c. A method returns the new
-- object and what it hands on: a scheduled call, or the closures that it invalidates and releases.
-- A closure is a number, a text the list of its bytes without the final NUL.
pub mod Closures
pub mod Buffered
pub mod Caps
use openwebrtc.Prelude.{
  ℕ, ◌+◌, ◌-◌, ◌%◌, ◌^◌, Bool, true, false, not, ◌&&◌, Option, none, some, List, [], ◌∷◌, ◌++◌,
  length, ltb, leb, if◌then◌else◌,
}
use openwebrtc.Prelude.Int.{ℤ, minus_one, eqb_ℤ, nonneg, to_uint32}

pub data ReadyState : Type 0 where
  connecting open_state closing closed : ReadyState

-- A property of the class with the value that is set.
pub data Property : Type 0 where
  ordered negotiated : Bool → Property
  max_packet_life_time max_retransmits : ℤ → Property
  protocol label : Option (List ℕ) → Property
  id : ℕ → Property
  other : Property

pub record DataChannel : Type 0 where
  pub ordered : Bool
  pub max_packet_life_time : ℤ
  pub max_retransmits : ℤ
  pub protocol : List ℕ
  pub negotiated : Bool
  pub id : ℕ  -- guint16
  pub label : List ℕ
  pub on_datachannel_send : Option ℕ
  pub on_request_bytes_sent : Option ℕ
  pub on_datachannel_close : Option ℕ
  pub ready_state : ReadyState
  pub bytes_sent : ℕ  -- guint64

abbrev pub max_chunk_size : ℕ
max_chunk_size = 65535

abbrev pub max_uint : ℕ
max_uint = 2 ^ 32 - 1

-- owr_data_channel_init, on memory that GObject has set to zero.
unfoldable pub init : DataChannel
init = record {
  ordered = true;
  max_packet_life_time = minus_one;
  max_retransmits = minus_one;
  protocol = [];
  negotiated = false;
  id = 0;
  label = [];
  on_datachannel_send = none;
  on_request_bytes_sent = none;
  on_datachannel_close = none;
  ready_state = connecting;
  bytes_sent = 0;
}

abbrev or_empty : Option (List ℕ) → List ℕ
or_empty none = []
or_empty (some s) = s

unfoldable pub set_property : DataChannel → Property → DataChannel
set_property c (Property.ordered b) = record c { ordered = b }
set_property c (Property.max_packet_life_time n) = record c { max_packet_life_time = n }
set_property c (Property.max_retransmits n) = record c { max_retransmits = n }
set_property c (Property.protocol s) = record c { protocol = or_empty s }
set_property c (Property.negotiated b) = record c { negotiated = b }
set_property c (Property.id n) = record c { id = n % 2 ^ 16 }
set_property c (Property.label s) = record c { label = or_empty s }
set_property c other = c

unfoldable pub set_properties : DataChannel → List Property → DataChannel
unfolding set_property
set_properties c [] = c
set_properties c (p ∷ ps) = set_properties (set_property c p) ps

-- owr_data_channel_new: NULL if both limits on retransmission are given.
unfoldable pub new : Bool → ℤ → ℤ → List ℕ → Bool → ℕ → List ℕ → Option DataChannel
unfolding set_properties init
new is_ordered life_time retransmits sub_protocol is_negotiated stream name =
    if not (eqb_ℤ life_time minus_one) && not (eqb_ℤ retransmits minus_one)
    then none
    else some (set_properties init properties)
  where
    properties : List Property
    properties =
        Property.ordered is_ordered
        ∷ Property.max_packet_life_time life_time
        ∷ Property.max_retransmits retransmits
        ∷ Property.protocol (some sub_protocol)
        ∷ Property.negotiated is_negotiated
        ∷ Property.id stream
        ∷ Property.label (some name)
        ∷ []

-- The call of data_channel_send that a method schedules on the main thread.
pub record SendCall : Type 0 where
  pub bytes : List ℕ
  pub size : ℕ
  pub is_binary : Bool

-- owr_data_channel_send: a text of more than MAX_CHUNK_SIZE bytes is refused.
unfoldable pub send : DataChannel → List ℕ → DataChannel × Option SendCall
send c text =
    let size = length text in
    if leb size max_chunk_size
    then (
      record c { bytes_sent = (c.bytes_sent + size) % 2 ^ 64 },
      some (record { bytes = text; size = size; is_binary = false }),
    )
    else (c, none)

-- owr_data_channel_send_binary: the size is a guint16, so there is nothing to refuse.
unfoldable pub send_binary : DataChannel → List ℕ → ℕ → DataChannel × Option SendCall
send_binary c bytes size = (
  record c { bytes_sent = (c.bytes_sent + size) % 2 ^ 64 },
  some (record { bytes = bytes; size = size; is_binary = true }),
)

-- data_channel_send hands the bytes to the closure, or frees them.
unfoldable pub data_channel_send : DataChannel → SendCall → Option (ℕ × SendCall)
data_channel_send c call = elim c.on_datachannel_send [ none ↦ none | some f ↦ some (f, call) ]

-- data_channel_close invokes the closure, if there is one.
unfoldable pub data_channel_close : DataChannel → Option ℕ
data_channel_close c = c.on_datachannel_close

-- get_buffered_amount; `answer` is what the closure on_request_bytes_sent returns (guint64).
unfoldable pub get_buffered_amount : DataChannel → (ℕ → ℕ) → ℕ
get_buffered_amount c answer =
    let asked : ℕ = elim c.on_request_bytes_sent [ none ↦ 0 | some f ↦ answer f ] in
    let rest = if ltb c.bytes_sent asked then 0 else c.bytes_sent - asked in
    if ltb max_uint rest then max_uint else rest

abbrev same_state : ReadyState → ReadyState → Bool
same_state connecting connecting = true
same_state open_state open_state = true
same_state closing closing = true
same_state closed closed = true
same_state _ _ = false

-- set_ready_state; the second part says whether the change is notified.
unfoldable pub set_ready_state : DataChannel → ReadyState → DataChannel × Bool
set_ready_state c state =
    if same_state state c.ready_state then (c, false) else (record c { ready_state = state }, true)
