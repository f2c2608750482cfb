-- ===== src/Ice/Served.antt =====
-- Every stream has all helper servers and gathers candidates, transport/owr_transport_agent.c.
use openwebrtc.Prelude.{
  ◌-◌, ◌%◌, ◌^◌, ◌+◌, ◌-◌, ◌<◌, ℕ, ◌-◌, ◌≡◌, refl, ap, sym, ◌∙◌, Bool, true, false, ◌&&◌, ◌||◌,
  Option, none, some, List, [], ◌∷◌, ◌++◌, ◌==◌, ltb, leb, arith, inl, inr, Bool-cases, if_both,
  Map, insert,
}
use openwebrtc.Candidate.{NiceComponentType}
use openwebrtc.Ice.{
  HelperServer, IceAgent, set_local_port_range, add_local_address_at, update_helper_servers,
  gather_unless_deferred, add_helper_server, resolved, add_helper_server_info, is_session_of,
  Joining, LocalIp, agent_port_range, session_port, ensure_local_address, join, add_session,
}
use openwebrtc.Ice.Helper.{
  relays, gathers, turn_servers, is_stream, is_media, relays-update, gathers-update, relays-gather,
  gathers-gather,
}
use openwebrtc.Ice.Loop.{Looped, for_streams-Looped}
use openwebrtc.Ice.Quiet.{
  Quiet, Quiet-trans, Quiet-local_address, Quiet-ensure, Quiet-agent_port_range, Quiet-session_port,
}

-- Libnice has been told of all relays for each stream, and to gather candidates for it, unless a
-- helper server's name is still being looked up.
pub record IsServed (a : IceAgent) : Type 0 where
  pub relays_told :
      (k : ℕ) (c : NiceComponentType)
      → is_stream k a.sessions ≡ true
      → is_media c ≡ true
      → relays k c [] a.calls ≡ turn_servers a.helper_server_infos
  pub gathered :
      (k : ℕ)
      → is_stream k a.sessions ≡ true
      → (a.deferred_helper_server_adds == 0) ≡ true
      → gathers k a.calls ≡ true

IsServed-Looped :
    (found : Bool) (a b : IceAgent)
    → Looped found a.sessions a b
    → ((k : ℕ) (c : NiceComponentType)
        → found ≡ false
        → is_stream k a.sessions ≡ true
        → is_media c ≡ true
        → relays k c [] a.calls ≡ turn_servers a.helper_server_infos)
    → IsServed b
IsServed-Looped found a b l told = record {
  relays_told = λ k c s h.
      let s' : is_stream k a.sessions ≡ true = ap (is_stream k) (sym l.same_sessions) ∙ s in
      l.relays_then k c h
      ∙ rw s' (elim (Bool-cases found) [ inl f ↦ rw f refl | inr f ↦ rw f (told k c f s' h) ])
      ∙ ap turn_servers (sym l.same_infos);
  gathered = λ k s z.
      let s' : is_stream k a.sessions ≡ true = ap (is_stream k) (sym l.same_sessions) ∙ s in
      let z' : (a.deferred_helper_server_adds == 0) ≡ true =
        ap (λ n. n == 0) (sym l.same_deferred) ∙ z in
      l.gathers_then k ∙ rw (s', z') (ground arith);
}

IsServed-resolved :
    (answer : Option HelperServer) (a : IceAgent)
    → IsServed a
    → IsServed (add_helper_server_info answer a)
unfolding add_helper_server_info resolved
IsServed-resolved none a v =
    IsServed-Looped false _ _
      (for_streams-Looped false a.sessions (record a {
        deferred_helper_server_adds = (a.deferred_helper_server_adds + (2 ^ 32 - 1)) % 2 ^ 32;
      }))
      (λ k c f s h. v.relays_told k c s h)
IsServed-resolved (some h) a v =
    IsServed-Looped true _ _
      (for_streams-Looped true a.sessions (record a {
        deferred_helper_server_adds = (a.deferred_helper_server_adds + (2 ^ 32 - 1)) % 2 ^ 32;
        helper_server_infos = a.helper_server_infos ++ h ∷ [];
      }))
      (λ k c f s m. absurd (ground arith))

is_stream-insert :
    (k stream session : ℕ) (m : Map ℕ)
    → is_stream k (insert stream session m) ≡ (stream == k || is_stream k m)
unfolding insert
is_stream-insert k stream session [] = refl
is_stream-insert k stream session ((s, other) ∷ rest) =
    ground (arith, is_stream-insert k stream session rest)

module _ (stream : ℕ) (j : Joining) (ips : List LocalIp) (a : IceAgent) (v : IsServed a) where
  abbrev joined : IceAgent
  joined = record a { sessions = insert stream j.session a.sessions }

  abbrev ready : IceAgent
  ready = ensure_local_address ips (
      session_port stream NiceComponentType.rtcp j.rtcp_port (
        session_port stream NiceComponentType.rtp j.rtp_port
          (agent_port_range stream j.rtcp_mux (update_helper_servers stream joined))))

  Quiet-ready : Quiet (update_helper_servers stream joined) ready
  Quiet-ready = Quiet-trans (Quiet-agent_port_range stream j.rtcp_mux _) (
      Quiet-trans (Quiet-session_port stream NiceComponentType.rtp j.rtp_port _) (
        Quiet-trans (Quiet-session_port stream NiceComponentType.rtcp j.rtcp_port _)
          (Quiet-ensure ips _)))

  before_or_new :
      (k : ℕ)
      → is_stream k (insert stream j.session a.sessions) ≡ true
      → (stream == k) ≡ false
      → is_stream k a.sessions ≡ true
  before_or_new k s other = ground (arith, is_stream-insert k stream j.session a.sessions)

  IsServed-join : IsServed (join stream j ips a)
  unfolding join update_helper_servers gather_unless_deferred
  IsServed-join =
      let q = Quiet-ready in
      record {
        relays_told = λ k c s h.
            let s' : is_stream k (insert stream j.session a.sessions) ≡ true =
              ap (is_stream k) (sym q.quiet_sessions) ∙ s in
            relays-gather stream k c ready
            ∙ q.quiet_relays k c
            ∙ relays-update stream k c joined h
            ∙ elim (Bool-cases (stream == k)) [
              | inl e ↦ rw e refl
              | inr e ↦ rw e (v.relays_told k c (before_or_new k s' e) h)
            ]
            ∙ ap turn_servers (sym q.quiet_infos);
        gathered = λ k s z.
            let s' : is_stream k (insert stream j.session a.sessions) ≡ true =
              ap (is_stream k) (sym q.quiet_sessions) ∙ s in
            let z' : (a.deferred_helper_server_adds == 0) ≡ true =
              ap (λ n. n == 0) (sym q.quiet_deferred) ∙ z in
            gathers-gather stream k ready
            ∙ ap (λ n. gathers k ready.calls || (n == 0 && stream == k)) q.quiet_deferred
            ∙ ap (λ b. b || (a.deferred_helper_server_adds == 0 && stream == k))
                (q.quiet_gathers k ∙ gathers-update stream k joined)
            ∙ elim (Bool-cases (stream == k)) [
              | inl e ↦ rw (e, z') (ground arith)
              | inr e ↦ rw (v.gathered k (before_or_new k s' e) z') refl
            ];
      }

IsServed-Quiet : (a b : IceAgent) → Quiet a b → IsServed a → IsServed b
IsServed-Quiet a b q v = record {
  relays_told = λ k c s h.
      q.quiet_relays k c
      ∙ v.relays_told k c (ap (is_stream k) (sym q.quiet_sessions) ∙ s) h
      ∙ ap turn_servers (sym q.quiet_infos);
  gathered = λ k s z.
      q.quiet_gathers k
      ∙ v.gathered k (ap (is_stream k) (sym q.quiet_sessions) ∙ s)
          (ap (λ n. n == 0) (sym q.quiet_deferred) ∙ z);
}

-- What happens to the agent: the application adds a helper server, the look-up of a name ends, the
-- application adds a session, for which libnice has a stream, a local address or a port range.
pub data Event : Type 0 where
  server_added : Event
  server_resolved : Option HelperServer → Event
  session_added : (stream : ℕ) → Joining → List LocalIp → Event
  address_added : (valid taken : Bool) → List ℕ → Event
  range_set : (min_port max_port : ℕ) → Event

unfoldable pub step : IceAgent → Event → IceAgent
step a server_added = add_helper_server a
step a (server_resolved answer) = add_helper_server_info answer a
step a (session_added stream j ips) = add_session stream j ips a
step a (address_added valid taken text) = add_local_address_at valid taken text a
step a (range_set min_port max_port) = set_local_port_range min_port max_port a

unfoldable pub run : IceAgent → List Event → IceAgent
run a [] = a
run a (e ∷ es) = run (step a e) es

-- A look-up ends after it has begun, and fewer than 2 ^ 32 are outstanding.
abbrev pub Allowed : IceAgent → Event → Type 0
Allowed a server_added = a.deferred_helper_server_adds + 1 < 2 ^ 32
Allowed a (server_resolved answer) = 0 < a.deferred_helper_server_adds
Allowed a _ = Unit

abbrev pub AllAllowed : IceAgent → List Event → Type 0
AllAllowed a [] = Unit
AllAllowed a (e ∷ es) = Allowed a e × AllAllowed (step a e) es

IsServed-step : (a : IceAgent) (e : Event) → Allowed a e → IsServed a → IsServed (step a e)
unfolding step add_helper_server add_session set_local_port_range
IsServed-step a server_added h v = record {
  relays_told = v.relays_told;
  gathered = λ k s z. absurd (ground arith);
}
IsServed-step a (server_resolved answer) h v = IsServed-resolved answer a v
IsServed-step a (session_added stream j ips) h v =
    if_both IsServed (is_session_of j.session a.sessions) a _ v
      (if_both IsServed (stream == 0) a _ v (IsServed-join stream j ips a v))
IsServed-step a (address_added valid taken text) h v =
    IsServed-Quiet a _ (Quiet-local_address valid taken text a) v
IsServed-step a (range_set min_port max_port) h v =
    if_both IsServed (ltb max_port 65536 && leb min_port max_port) _ a
      (record { relays_told = v.relays_told; gathered = v.gathered }) v

-- In whatever order sessions and helper servers are added, names are looked up, and addresses and
-- ports are set, if a look-up ends only after it has begun and fewer than 2 ^ 32 are outstanding, then
-- from a state where this holds: libnice has been told of just the TURN servers that are known, in their order, for
-- RTP and RTCP of the stream of each session, and once no look-up is outstanding it has been told to
-- gather candidates for each stream, also of a session that was added during a look-up.
pub run-IsServed :
    (es : List Event) (a : IceAgent) → AllAllowed a es → IsServed a → IsServed (run a es)
unfolding run
run-IsServed [] a h v = v
run-IsServed (e ∷ es) a h v = run-IsServed es (step a e) h.1 (IsServed-step a e h.0 v)
