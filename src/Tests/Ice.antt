-- ===== src/Tests/Ice.antt =====
-- An agent with a session that is added during the look-up of a helper server, and its remote
-- candidates.
use openwebrtc.Prelude.{
  ℕ, ◌≡◌, refl, true, false, some, List, [], ◌∷◌, ◌++◌, ◌==◌, if◌then◌else◌, insert, arith,
}
use openwebrtc.Candidate.{Candidate, NiceComponentType}
use openwebrtc.Candidate.Convert.{to_nice_candidate}
use openwebrtc.Ice.{
  HelperServer, turn_udp, NiceCall, IceAgent, Joining, LocalIp, update_helper_servers,
  gather_unless_deferred, add_helper_server, add_helper_server_info, for_streams, resolved,
  add_session, join, is_session_of, servers_calls, agent_port_range, session_port,
  ensure_local_address, add_local_ips, add_local_address_at,
}
use openwebrtc.Ice.Served.{
  IsServed, Event, server_added, server_resolved, session_added, step, run, run-IsServed,
}
use openwebrtc.Ice.Remote.{get_stream_id, on_new_remote_candidate}
use openwebrtc.Ice.Remote.Forwarding.{meant, converted, translated, add_remote_candidate-meant}
use openwebrtc.Session.{OwrSession, init, remote_candidate}
use openwebrtc.Session.Remote.{done, listed, add_remote_candidate}
use openwebrtc.Tests.Candidate.{plain, local_host}

abbrev start : IceAgent
start = record {
  sessions = [];
  deferred_helper_server_adds = 0;
  helper_server_infos = [];
  local_min_port = 0;
  local_max_port = 0;
  local_address_added = false;
  calls = [];
}

start-IsServed : IsServed start
start-IsServed = record {
  relays_told = λ k c s h. absurd (ground arith);
  gathered = λ k s z. absurd (ground arith);
}

abbrev turn : HelperServer
turn = record {
  server_type = turn_udp;
  address = b'9' ∷ [];
  port = 3478;
  username = some (b'u' ∷ []);
  password = some (b'p' ∷ []);
}

abbrev loopback : LocalIp
loopback = record {
  text = b'1' ∷ [];
  is_inet = true;
  is_link_local = false;
  valid = true;
  taken = true;
}

abbrev video : Joining
video = record { session = 50; rtcp_mux = true; rtp_port = 0; rtcp_port = 0 }

abbrev events : List Event
events =
    server_added
    ∷ session_added 4 video (loopback ∷ [])
    ∷ server_resolved (some turn)
    ∷ session_added 5 video []
    ∷ []

run-IsServed_example : IsServed (run start events)
unfolding run step add_helper_server add_session is_session_of join insert update_helper_servers
    servers_calls agent_port_range session_port ensure_local_address add_local_ips
    add_local_address_at gather_unless_deferred add_helper_server_info resolved for_streams
run-IsServed_example =
    run-IsServed events start (omega arith, (tt, (omega arith, (tt, tt)))) start-IsServed

calls_test :
    (run start events).calls
    ≡ NiceCall.forget_relays 4 NiceComponentType.rtp
      ∷ NiceCall.forget_relays 4 NiceComponentType.rtcp
      ∷ NiceCall.add_local_address (b'1' ∷ [])
      ∷ NiceCall.forget_relays 4 NiceComponentType.rtp
      ∷ NiceCall.forget_relays 4 NiceComponentType.rtcp
      ∷ NiceCall.set_relay_info 4 NiceComponentType.rtp turn
      ∷ NiceCall.set_relay_info 4 NiceComponentType.rtcp turn
      ∷ NiceCall.gather_candidates 4
      ∷ []
unfolding run step add_helper_server add_session is_session_of join insert update_helper_servers
    servers_calls agent_port_range session_port ensure_local_address add_local_ips
    add_local_address_at gather_unless_deferred add_helper_server_info resolved for_streams
calls_test = refl

-- A session with the closure of the agent, which knows one remote candidate.
abbrev known : OwrSession
unfolding init
known = record init { on_remote_candidate = some 8; remote_candidates = 1 ∷ [] }

abbrev objects : ℕ → Candidate
objects c = if c == 1 then local_host else record local_host { ufrag = some (b'z' ∷ []) }

add_remote_candidate-meant_example :
    (s' : OwrSession) × (add_remote_candidate 2 false known
      ≡ done s' (remote_candidate 8 false ∷ []))
    × (on_new_remote_candidate plain objects ((4, 50) ∷ []) 50 false s'
        ≡ meant plain objects (get_stream_id 50 ((4, 50) ∷ [])) false (
            converted plain objects (listed false known)
            ++ translated plain objects (to_nice_candidate plain (objects 2))))
unfolding get_stream_id known openwebrtc.Session.Remote.member
add_remote_candidate-meant_example =
    add_remote_candidate-meant plain objects ((4, 50) ∷ []) 50 2 false known 8 refl refl refl refl
