-- ===== src/Ice/Quiet.antt =====
-- The calls of libnice for addresses and ports, transport/owr_transport_agent.c, beside those for
-- helper servers and candidates.
use openwebrtc.Prelude.{
  ℕ, ◌≡◌, refl, ◌∙◌, Bool, true, false, not, ◌&&◌, List, [], ◌∷◌, ◌==◌, ltb, arith, if_both,
}
use openwebrtc.Candidate.{NiceComponentType}
use openwebrtc.Ice.{
  HelperServer, NiceCall, gather_candidates, IceAgent, call, set_local_port_range,
  add_local_address_at, update_helper_servers, gather_unless_deferred, add_helper_server,
  for_streams, resolved, add_helper_server_info, is_session_of, Joining, LocalIp, agent_port_range,
  session_port, add_local_ips, ensure_local_address, join, add_session,
}
use openwebrtc.Ice.Helper.{relays, gathers, relays-append, gathers-append}

-- A step that does not touch what the invariant reads.
pub record Quiet (a b : IceAgent) : Type 0 where
  pub quiet_relays : (k : ℕ) (c : NiceComponentType) → relays k c [] b.calls ≡ relays k c [] a.calls
  pub quiet_gathers : (k : ℕ) → gathers k b.calls ≡ gathers k a.calls
  pub quiet_infos : b.helper_server_infos ≡ a.helper_server_infos
  pub quiet_deferred : b.deferred_helper_server_adds ≡ a.deferred_helper_server_adds
  pub quiet_sessions : b.sessions ≡ a.sessions

pub Quiet-refl : (a : IceAgent) → Quiet a a
Quiet-refl a = record {
  quiet_relays = λ k c. refl;
  quiet_gathers = λ k. refl;
  quiet_infos = refl;
  quiet_deferred = refl;
  quiet_sessions = refl;
}

pub Quiet-trans : {a b c : IceAgent} → Quiet a b → Quiet b c → Quiet a c
Quiet-trans p q = record {
  quiet_relays = λ k c. q.quiet_relays k c ∙ p.quiet_relays k c;
  quiet_gathers = λ k. q.quiet_gathers k ∙ p.quiet_gathers k;
  quiet_infos = q.quiet_infos ∙ p.quiet_infos;
  quiet_deferred = q.quiet_deferred ∙ p.quiet_deferred;
  quiet_sessions = q.quiet_sessions ∙ p.quiet_sessions;
}

Quiet-call :
    (new : List NiceCall) (a : IceAgent)
    → ((k : ℕ) (c : NiceComponentType) (known : List HelperServer) → relays k c known new ≡ known)
    → ((k : ℕ) → gathers k new ≡ false)
    → Quiet a (call new a)
Quiet-call new a r g = record {
  quiet_relays = λ k c. relays-append k c a.calls [] new ∙ r k c _;
  quiet_gathers = λ k. gathers-append k a.calls new ∙ rw (g k) (ground arith);
  quiet_infos = refl;
  quiet_deferred = refl;
  quiet_sessions = refl;
}

pub Quiet-local_address :
    (valid taken : Bool) (text : List ℕ) (a : IceAgent)
    → Quiet a (add_local_address_at valid taken text a)
unfolding add_local_address_at relays gathers
Quiet-local_address false taken text a = Quiet-refl a
Quiet-local_address true false text a = Quiet-call _ a (λ k c known. refl) (λ k. refl)
Quiet-local_address true true text a =
    let q =
      Quiet-call (openwebrtc.Ice.add_local_address text ∷ []) a (λ k c known. refl) (λ k. refl) in
    record {
      quiet_relays = q.quiet_relays;
      quiet_gathers = q.quiet_gathers;
      quiet_infos = refl;
      quiet_deferred = refl;
      quiet_sessions = refl;
    }

Quiet-local_ips : (ips : List LocalIp) (a : IceAgent) → Quiet a (add_local_ips ips a)
unfolding add_local_ips
Quiet-local_ips [] a = Quiet-refl a
Quiet-local_ips (ip ∷ ips) a =
    Quiet-trans
      (if_both (Quiet a) (ip.is_inet && not ip.is_link_local) _ a
        (Quiet-local_address ip.valid ip.taken ip.text a) (Quiet-refl a))
      (Quiet-local_ips ips _)

pub Quiet-ensure : (ips : List LocalIp) (a : IceAgent) → Quiet a (ensure_local_address ips a)
unfolding ensure_local_address
Quiet-ensure ips a =
    if_both (Quiet a) a.local_address_added a _ (Quiet-refl a) (Quiet-local_ips ips a)

pub Quiet-agent_port_range :
    (stream : ℕ) (rtcp_mux : Bool) (a : IceAgent) → Quiet a (agent_port_range stream rtcp_mux a)
unfolding agent_port_range relays gathers
Quiet-agent_port_range stream true a =
    if_both (λ l. Quiet a (call l a)) (ltb 0 a.local_max_port) _ []
      (Quiet-call _ a (λ k c known. refl) (λ k. refl))
      (Quiet-call [] a (λ k c known. refl) (λ k. refl))
Quiet-agent_port_range stream false a =
    if_both (λ l. Quiet a (call l a)) (ltb 0 a.local_max_port) _ []
      (Quiet-call _ a (λ k c known. refl) (λ k. refl))
      (Quiet-call [] a (λ k c known. refl) (λ k. refl))

pub Quiet-session_port :
    (stream : ℕ) (component : NiceComponentType) (port : ℕ) (a : IceAgent)
    → Quiet a (session_port stream component port a)
unfolding session_port relays gathers
Quiet-session_port stream component port a =
    if_both (λ l. Quiet a (call l a)) (port == 0) [] _
      (Quiet-call [] a (λ k c known. refl) (λ k. refl))
      (Quiet-call _ a (λ k c known. refl) (λ k. refl))
