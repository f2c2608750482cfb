-- ===== src/Agent/Events.antt =====
-- The events that the transport agent handles, one at a time, transport/owr_transport_agent.c, and
-- how the application's calls reach it, transport/owr_data_channel.c.
use openwebrtc.Prelude.{ℕ, ◌^◌, ◌<◌, Bool, Option, none, some, List, [], ◌∷◌, lookup}
use openwebrtc.Outcome.{Outcome, ok, null_pointer, require, ◌>>=◌}
use openwebrtc.Gst.{ByteIo}
use openwebrtc.DataChannel.{SendCall, data_channel_send, data_channel_close}
use openwebrtc.Agent.{Agent, Task, run_task}
use openwebrtc.Agent.Open.{Elements, on_new_datachannel, on_sctp_association_established}
use openwebrtc.Agent.Receive.{new_data_callback}
use openwebrtc.Agent.Close.{sctpdec_pad_added, sctpdec_pad_removed, on_datachannel_close}
use openwebrtc.Agent.Send.{on_datachannel_send}

-- The application reaches the agent by the closures of its object, and not if the object has none.
abbrev pub invoke_send : ℕ → Option (ℕ × SendCall) → Agent → Outcome Agent
invoke_send ref none a = ok a
invoke_send ref (some (closure, call)) a = on_datachannel_send ref call a

abbrev pub invoke_close : ℕ → Option ℕ → Agent → Outcome Agent
invoke_close ref none a = ok a
invoke_close ref (some closure) a = on_datachannel_close ref a

unfoldable pub send_on : ℕ → SendCall → Agent → Outcome Agent
send_on ref call a = require (lookup ref a.objects) null_pointer >>= λ c.
    invoke_send ref (data_channel_send c call) a

unfoldable pub close_of : ℕ → Agent → Outcome Agent
close_of ref a =
    require (lookup ref a.objects) null_pointer >>= λ c. invoke_close ref (data_channel_close c) a

pub data Event : Type 0 where
  association_established : Elements → Bool → ℕ → Event
  channel_added : Elements → ℕ → ℕ → Event
  pad_added : ℕ → (stream : ℕ) → stream < 2 ^ 16 → Event
  pad_removed : ℕ → Event
  message : ℕ → List ℕ → ℕ → Event
  send : ℕ → SendCall → Event
  close : ℕ → Event
  main_loop : Task → Event

unfoldable pub step : ByteIo → Event → Agent → Outcome Agent
step io (association_established e established s) a =
    on_sctp_association_established e io established s a
step io (channel_added e s ref) a = on_new_datachannel e io s ref a
step io (pad_added s stream h) a = sctpdec_pad_added s stream a
step io (pad_removed stream) a = sctpdec_pad_removed stream a
step io (message ppid bytes stream) a = new_data_callback io ppid bytes stream a
step io (send ref call) a = send_on ref call a
step io (close ref) a = close_of ref a
step io (main_loop task) a = ok (run_task task a)

unfoldable pub run : ByteIo → List Event → Agent → Outcome Agent
run io [] a = ok a
run io (e ∷ es) a = step io e a >>= run io es
