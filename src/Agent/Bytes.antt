-- ===== src/Agent/Bytes.antt =====
-- The buffered amount of a channel from the encoder's count, transport/owr_transport_agent.c and
-- transport/owr_data_channel.c.
use Prim.Native.Nat.{min}
use openwebrtc.Prelude.{ℕ, ◌+◌, ◌-◌, ◌%◌, ◌^◌, ◌<◌, ◌≡◌, ◌∙◌, refl, false, some, arith, lookup}
use openwebrtc.Outcome.{ok}
use openwebrtc.DataChannel.{DataChannel, max_uint, get_buffered_amount}
use openwebrtc.DataChannel.Buffered.{get_buffered_amount_lem}
use openwebrtc.Agent.{Agent, ChannelInfo, Session, get_session}
use openwebrtc.Agent.Send.{on_datachannel_request_bytes_sent}

-- If the encoder has counted n bytes on the stream beside those of control messages, the agent
-- answers n to the object of a channel that it knows, and the object then reports as buffered what
-- the application has sent less n, from 0 up to the largest guint.
pub get_buffered_amount-request :
    (ref f n : ℕ) (bytes_sent answer : ℕ → ℕ) (a : Agent) (c : DataChannel) (info : ChannelInfo)
    (session : Session)
    → lookup ref a.objects ≡ some c
    → a.locked ≡ false
    → lookup c.id a.data_channels ≡ some info
    → get_session a info.session_id ≡ some session
    → c.on_request_bytes_sent ≡ some f
    → bytes_sent c.id ≡ info.ctrl_bytes_sent + n
    → n < 2 ^ 64
    → answer f ≡ n
    → (on_datachannel_request_bytes_sent ref bytes_sent a ≡ ok n)
      × (get_buffered_amount c answer ≡ min max_uint (c.bytes_sent - n))
unfolding on_datachannel_request_bytes_sent
get_buffered_amount-request ref f n bytes_sent answer a c info session object unlocked entry its g h
      p q =
    let rest : (info.ctrl_bytes_sent + n + 2 ^ 64 - info.ctrl_bytes_sent) % 2 ^ 64 ≡ n =
      omega arith in
    (
      rw (object, entry, its, h, rest, unlocked) refl,
      get_buffered_amount_lem c answer ∙ rw (g, q) refl,
    )
