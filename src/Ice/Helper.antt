-- ===== src/Ice/Helper.antt =====
-- Helper servers and the gathering of candidates, transport/owr_transport_agent.c: what libnice has
-- been told, whatever the order of added sessions and resolved names.
use openwebrtc.Prelude.{
  ℕ, ◌≡◌, refl, ap, sym, ◌∙◌, Bool, true, false, ◌&&◌, ◌||◌, List, [], ◌∷◌, ◌++◌, ◌==◌, arith, inl,
  inr, Bool-cases, if◌then◌else◌, if_both, Map,
}
use mathlib.Core.List.{append-nil, append_assoc}
use openwebrtc.Candidate.{NiceComponentType}
use openwebrtc.Ice.{
  HelperServerType, HelperServer, stun, turn_udp, turn_tcp, turn_tls, NiceCall, forget_relays,
  set_stun_server, set_stun_server_port, set_relay_info, set_port_range, gather_candidates,
  IceAgent, call, set_local_port_range, add_local_address_at, calls_for, servers_calls,
  update_helper_servers, gather_unless_deferred, add_helper_server, for_streams, resolved,
  add_helper_server_info, is_session_of, Joining, LocalIp, agent_port_range, session_port,
  add_local_ips, ensure_local_address, join, add_session,
}
use openwebrtc.Ice as Ice

abbrev pub same_component : NiceComponentType → NiceComponentType → Bool
same_component NiceComponentType.rtp NiceComponentType.rtp = true
same_component NiceComponentType.rtcp NiceComponentType.rtcp = true
same_component NiceComponentType.other NiceComponentType.other = true
same_component _ _ = false

-- The relays that a component of a stream has after some calls, and whether it gathers candidates.
unfoldable pub relays :
    ℕ → NiceComponentType → List HelperServer → List NiceCall → List HelperServer
relays k c known [] = known
relays k c known (forget_relays s d ∷ rest) =
    relays k c (if s == k && same_component d c then [] else known) rest
relays k c known (set_relay_info s d h ∷ rest) =
    relays k c (if s == k && same_component d c then known ++ h ∷ [] else known) rest
relays k c known (_ ∷ rest) = relays k c known rest

unfoldable pub gathers : ℕ → List NiceCall → Bool
gathers k [] = false
gathers k (gather_candidates s ∷ rest) = s == k || gathers k rest
gathers k (_ ∷ rest) = gathers k rest

abbrev pub turn_of : HelperServerType → HelperServer → List HelperServer
turn_of stun h = []
turn_of _ h = h ∷ []

-- The servers that are relays, in their order.
abbrev pub turn_servers : List HelperServer → List HelperServer
turn_servers [] = []
turn_servers (h ∷ hs) = turn_of h.server_type h ++ turn_servers hs

abbrev pub is_stream : ℕ → Map ℕ → Bool
is_stream k [] = false
is_stream k ((stream, session) ∷ rest) = stream == k || is_stream k rest

module _ (k : ℕ) (c : NiceComponentType) where
  pub relays-append :
      (xs : List NiceCall) (known : List HelperServer) (ys : List NiceCall)
      → relays k c known (xs ++ ys) ≡ relays k c (relays k c known xs) ys
  unfolding relays
  relays-append [] known ys = refl
  relays-append (forget_relays s d ∷ xs) known ys = relays-append xs _ ys
  relays-append (set_relay_info s d h ∷ xs) known ys = relays-append xs _ ys
  relays-append (set_stun_server t ∷ xs) known ys = relays-append xs _ ys
  relays-append (set_stun_server_port n ∷ xs) known ys = relays-append xs _ ys
  relays-append (set_port_range s d n m ∷ xs) known ys = relays-append xs _ ys
  relays-append (Ice.add_local_address t ∷ xs) known ys = relays-append xs _ ys
  relays-append (gather_candidates s ∷ xs) known ys = relays-append xs _ ys

pub gathers-append :
    (k : ℕ) (xs ys : List NiceCall) → gathers k (xs ++ ys) ≡ (gathers k xs || gathers k ys)
unfolding gathers
gathers-append k [] ys = refl
gathers-append k (forget_relays s d ∷ xs) ys = gathers-append k xs ys
gathers-append k (set_relay_info s d h ∷ xs) ys = gathers-append k xs ys
gathers-append k (set_stun_server t ∷ xs) ys = gathers-append k xs ys
gathers-append k (set_stun_server_port n ∷ xs) ys = gathers-append k xs ys
gathers-append k (set_port_range s d n m ∷ xs) ys = gathers-append k xs ys
gathers-append k (Ice.add_local_address t ∷ xs) ys = gathers-append k xs ys
gathers-append k (gather_candidates s ∷ xs) ys = ground (arith, gathers-append k xs ys)

-- RTP or RTCP.
abbrev pub is_media : NiceComponentType → Bool
is_media NiceComponentType.other = false
is_media _ = true

rtp_last :
    (b : Bool) (known : List HelperServer) (h : HelperServer)
    → (let first = if b && true then known ++ h ∷ [] else known in
        if b && false then first ++ h ∷ [] else first)
      ≡ (if b then known ++ h ∷ [] else known)
rtp_last true known h = refl
rtp_last false known h = refl

rtcp_last :
    (b : Bool) (known : List HelperServer) (h : HelperServer)
    → (let first = if b && false then known ++ h ∷ [] else known in
        if b && true then first ++ h ∷ [] else first)
      ≡ (if b then known ++ h ∷ [] else known)
rtcp_last true known h = refl
rtcp_last false known h = refl

same_either : {A : Type 0} (b : Bool) (x : A) → x ≡ (if b then x else x)
same_either true x = refl
same_either false x = refl

cleared :
    (b : Bool) (known xs : List HelperServer)
    → (let first = if b then [] else known in if b then first ++ xs else first)
      ≡ (if b then xs else known)
cleared true known xs = refl
cleared false known xs = refl

if_append :
    (b : Bool) (known xs ys : List HelperServer)
    → (let first = if b then known ++ xs else known in if b then first ++ ys else first)
      ≡ (if b then known ++ (xs ++ ys) else known)
if_append true known xs ys = append_assoc known xs ys
if_append false known xs ys = refl

module _ (s k : ℕ) where
  relays-calls_for :
      (c : NiceComponentType) (t : HelperServerType) (known : List HelperServer) (h : HelperServer)
      → is_media c ≡ true
      → relays k c known (calls_for t s h) ≡ (if s == k then known ++ turn_of t h else known)
  unfolding relays
  relays-calls_for c stun known h m =
      same_either (s == k) known ∙ ap (λ l. if s == k then l else known) (sym (append-nil known))
  relays-calls_for NiceComponentType.other t known h m = absurd (ground arith)
  relays-calls_for NiceComponentType.rtp turn_udp known h m = rtp_last (s == k) known h
  relays-calls_for NiceComponentType.rtp turn_tcp known h m = rtp_last (s == k) known h
  relays-calls_for NiceComponentType.rtp turn_tls known h m = rtp_last (s == k) known h
  relays-calls_for NiceComponentType.rtcp turn_udp known h m = rtcp_last (s == k) known h
  relays-calls_for NiceComponentType.rtcp turn_tcp known h m = rtcp_last (s == k) known h
  relays-calls_for NiceComponentType.rtcp turn_tls known h m = rtcp_last (s == k) known h

  relays-servers_calls :
      (c : NiceComponentType) (hs known : List HelperServer)
      → is_media c ≡ true
      → relays k c known (servers_calls s hs) ≡ (if s == k then known ++ turn_servers hs else known)
  unfolding relays servers_calls
  relays-servers_calls c [] known m =
      same_either (s == k) known ∙ ap (λ l. if s == k then l else known) (sym (append-nil known))
  relays-servers_calls c (h ∷ hs) known m =
      relays-append k c (calls_for h.server_type s h) known (servers_calls s hs)
      ∙ relays-servers_calls c hs _ m
      ∙ rw (relays-calls_for c h.server_type known h m)
          (if_append (s == k) known (turn_of h.server_type h) (turn_servers hs))

  forgotten :
      (c : NiceComponentType) (known : List HelperServer)
      → is_media c ≡ true
      → relays k c known
          (forget_relays s NiceComponentType.rtp ∷ forget_relays s NiceComponentType.rtcp ∷ [])
        ≡ (if s == k then [] else known)
  unfolding relays
  forgotten NiceComponentType.other known m = absurd (ground arith)
  forgotten NiceComponentType.rtp known m = elim (Bool-cases (s == k)) [
    | inl e ↦ rw e refl
    | inr e ↦ rw e refl
  ]
  forgotten NiceComponentType.rtcp known m = elim (Bool-cases (s == k)) [
    | inl e ↦ rw e refl
    | inr e ↦ rw e refl
  ]

  -- What libnice knows of the relays of one stream after update_helper_servers.
  pub relays-update :
      (c : NiceComponentType) (a : IceAgent)
      → is_media c ≡ true
      → relays k c [] (update_helper_servers s a).calls
        ≡ (if s == k then turn_servers a.helper_server_infos else relays k c [] a.calls)
  unfolding update_helper_servers
  relays-update c a m =
      relays-append k c a.calls [] _
      ∙ relays-append k c
          (forget_relays s NiceComponentType.rtp ∷ forget_relays s NiceComponentType.rtcp ∷ [])
          (relays k c [] a.calls) (servers_calls s a.helper_server_infos)
      ∙ ap (λ l. relays k c l (servers_calls s a.helper_server_infos))
          (forgotten c (relays k c [] a.calls) m)
      ∙ relays-servers_calls c a.helper_server_infos _ m
      ∙ cleared (s == k) (relays k c [] a.calls) (turn_servers a.helper_server_infos)

  gathers-calls_for :
      (t : HelperServerType) (h : HelperServer) → gathers k (calls_for t s h) ≡ false
  unfolding gathers
  gathers-calls_for stun h = refl
  gathers-calls_for turn_udp h = refl
  gathers-calls_for turn_tcp h = refl
  gathers-calls_for turn_tls h = refl

  gathers-servers_calls : (hs : List HelperServer) → gathers k (servers_calls s hs) ≡ false
  unfolding gathers servers_calls
  gathers-servers_calls [] = refl
  gathers-servers_calls (h ∷ hs) =
      gathers-append k (calls_for h.server_type s h) (servers_calls s hs)
      ∙ rw (gathers-calls_for h.server_type h) (gathers-servers_calls hs)

  pub gathers-update :
      (a : IceAgent) → gathers k (update_helper_servers s a).calls ≡ gathers k a.calls
  unfolding update_helper_servers gathers
  gathers-update a =
      gathers-append k a.calls _
      ∙ ap (λ b. gathers k a.calls || b) (gathers-servers_calls a.helper_server_infos)
      ∙ ground arith

  pub relays-gather :
      (c : NiceComponentType) (a : IceAgent)
      → relays k c [] (gather_unless_deferred s a).calls ≡ relays k c [] a.calls
  unfolding gather_unless_deferred relays
  relays-gather c a =
      relays-append k c a.calls [] _
      ∙ if_both (λ l. relays k c (relays k c [] a.calls) l ≡ relays k c [] a.calls)
          (a.deferred_helper_server_adds == 0) _ _ refl refl

  pub gathers-gather :
      (a : IceAgent)
      → gathers k (gather_unless_deferred s a).calls
        ≡ (gathers k a.calls || (a.deferred_helper_server_adds == 0 && s == k))
  unfolding gather_unless_deferred gathers
  gathers-gather a =
      gathers-append k a.calls _ ∙ elim (Bool-cases (a.deferred_helper_server_adds == 0)) [
        | inl e ↦ rw e (ap (λ b. gathers k a.calls || b) (ground arith))
        | inr e ↦ rw e refl
      ]
