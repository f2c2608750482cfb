-- ===== src/Ice.antt =====
-- The ICE side of the transport agent, transport/owr_transport_agent.c: sessions and their libnice
-- streams, helper servers, port ranges and the gathering of candidates. What the agent asks of
-- libnice is appended to `calls`; libnice's and GLib's answers are arguments.
pub mod Helper
pub mod Loop
pub mod Quiet
pub mod Remote
pub mod Served
use openwebrtc.Prelude.{
  ℕ, ◌+◌, ◌-◌, ◌%◌, ◌^◌, Bool, true, false, not, ◌&&◌, Option, none, some, List, [], ◌∷◌, ◌++◌,
  ◌==◌, ltb, leb, if◌then◌else◌, Map, insert,
}
use openwebrtc.Candidate.{NiceComponentType}

pub data HelperServerType : Type 0 where
  stun turn_udp turn_tcp turn_tls : HelperServerType

pub record HelperServer : Type 0 where
  pub server_type : HelperServerType
  pub address : List ℕ
  pub port : ℕ
  pub username : Option (List ℕ)
  pub password : Option (List ℕ)

-- The calls of libnice.
pub data NiceCall : Type 0 where
  forget_relays : (stream : ℕ) → NiceComponentType → NiceCall
  set_stun_server : (address : List ℕ) → NiceCall
  set_stun_server_port : ℕ → NiceCall
  set_relay_info : (stream : ℕ) → NiceComponentType → HelperServer → NiceCall
  set_port_range : (stream : ℕ) → NiceComponentType → (min_port max_port : ℕ) → NiceCall
  add_local_address : List ℕ → NiceCall
  gather_candidates : (stream : ℕ) → NiceCall

pub record IceAgent : Type 0 where
  pub sessions : Map ℕ  -- by stream id
  pub deferred_helper_server_adds : ℕ
  pub helper_server_infos : List HelperServer
  pub local_min_port : ℕ
  pub local_max_port : ℕ
  pub local_address_added : Bool
  pub calls : List NiceCall

abbrev pub call : List NiceCall → IceAgent → IceAgent
call new a = record a { calls = a.calls ++ new }

-- owr_transport_agent_set_local_port_range.
unfoldable pub set_local_port_range : ℕ → ℕ → IceAgent → IceAgent
set_local_port_range min_port max_port a =
    if ltb max_port 65536 && leb min_port max_port
    then record a { local_min_port = min_port; local_max_port = max_port }
    else a

-- owr_transport_agent_add_local_address: whether libnice reads the text and whether it takes the
-- address.
unfoldable pub add_local_address_at : (valid taken : Bool) → List ℕ → IceAgent → IceAgent
add_local_address_at false taken text a = a
add_local_address_at true false text a = call (add_local_address text ∷ []) a
add_local_address_at true true text a =
    call (add_local_address text ∷ []) (record a { local_address_added = true })

-- One entry of helper_server_infos, for one stream.
abbrev pub calls_for : HelperServerType → ℕ → HelperServer → List NiceCall
calls_for stun stream h = set_stun_server h.address ∷ set_stun_server_port h.port ∷ []
calls_for _ stream h =
    set_relay_info stream NiceComponentType.rtp h
    ∷ set_relay_info stream NiceComponentType.rtcp h
    ∷ []

unfoldable pub servers_calls : ℕ → List HelperServer → List NiceCall
servers_calls stream [] = []
servers_calls stream (h ∷ hs) = calls_for h.server_type stream h ++ servers_calls stream hs

unfoldable pub update_helper_servers : ℕ → IceAgent → IceAgent
update_helper_servers stream a =
    call
      (forget_relays stream NiceComponentType.rtp
        ∷ forget_relays stream NiceComponentType.rtcp
        ∷ servers_calls stream a.helper_server_infos)
      a

unfoldable pub gather_unless_deferred : ℕ → IceAgent → IceAgent
gather_unless_deferred stream a =
    call (if a.deferred_helper_server_adds == 0 then gather_candidates stream ∷ [] else []) a

-- owr_transport_agent_add_helper_server; the look-up of the name that it starts ends in
-- add_helper_server_info.
unfoldable pub add_helper_server : IceAgent → IceAgent
add_helper_server a = record a {
  deferred_helper_server_adds = (a.deferred_helper_server_adds + 1) % 2 ^ 32;
}

-- The loop of add_helper_server_info over the streams; `found` tells whether there is an address.
unfoldable pub for_streams : (found : Bool) → Map ℕ → IceAgent → IceAgent
for_streams found [] a = a
for_streams found ((stream, session) ∷ rest) a =
    for_streams found rest
      (gather_unless_deferred stream (if found then update_helper_servers stream a else a))

unfoldable pub resolved : Option HelperServer → IceAgent → IceAgent
resolved none a = for_streams false a.sessions a
resolved (some h) a =
    for_streams true a.sessions (record a { helper_server_infos = a.helper_server_infos ++ h ∷ [] })

unfoldable pub add_helper_server_info : Option HelperServer → IceAgent → IceAgent
add_helper_server_info answer a = resolved answer (record a {
  deferred_helper_server_adds = (a.deferred_helper_server_adds + (2 ^ 32 - 1)) % 2 ^ 32;
})

unfoldable pub is_session_of : ℕ → Map ℕ → Bool
is_session_of session [] = false
is_session_of session ((stream, other) ∷ rest) =
    let further = is_session_of session rest in if other == session then true else further

-- What add_session reads of a session.
pub record Joining : Type 0 where
  pub session : ℕ
  pub rtcp_mux : Bool  -- true for a data session
  pub rtp_port : ℕ
  pub rtcp_port : ℕ

unfoldable pub agent_port_range : ℕ → Bool → IceAgent → IceAgent
agent_port_range stream rtcp_mux a =
    let range = λ (component : NiceComponentType).
      set_port_range stream component a.local_min_port a.local_max_port in
    call
      (if ltb 0 a.local_max_port
        then range NiceComponentType.rtp
          ∷ (if rtcp_mux then [] else range NiceComponentType.rtcp ∷ [])
        else [])
      a

unfoldable pub session_port : ℕ → NiceComponentType → ℕ → IceAgent → IceAgent
session_port stream component port a =
    call (if port == 0 then [] else set_port_range stream component port port ∷ []) a

-- A local IP of nice_interfaces_get_local_ips: its text, whether GLib reads it and whether it is
-- link-local, whether libnice reads and takes it.
pub record LocalIp : Type 0 where
  pub text : List ℕ
  pub is_inet : Bool
  pub is_link_local : Bool
  pub valid : Bool
  pub taken : Bool

unfoldable pub add_local_ips : List LocalIp → IceAgent → IceAgent
add_local_ips [] a = a
add_local_ips (ip ∷ ips) a = add_local_ips ips (
    if ip.is_inet && not ip.is_link_local
    then add_local_address_at ip.valid ip.taken ip.text a
    else a)

unfoldable pub ensure_local_address : List LocalIp → IceAgent → IceAgent
ensure_local_address ips a = if a.local_address_added then a else add_local_ips ips a

unfoldable pub join : ℕ → Joining → List LocalIp → IceAgent → IceAgent
join stream j ips a = gather_unless_deferred stream (
    ensure_local_address ips (
      session_port stream NiceComponentType.rtcp j.rtcp_port (
        session_port stream NiceComponentType.rtp j.rtp_port (
          agent_port_range stream j.rtcp_mux (
            update_helper_servers stream
              (record a { sessions = insert stream j.session a.sessions }))))))

-- add_session up to the gathering, with the stream that libnice gives, 0 if it gives none. The
-- elements and closures of the session are not part of this state.
unfoldable pub add_session : ℕ → Joining → List LocalIp → IceAgent → IceAgent
add_session stream j ips a =
    if is_session_of j.session a.sessions
    then a
    else (if stream == 0 then a else join stream j ips a)
