-- ===== src/Agent/Invariant.antt =====
-- What holds of the agent's table of data channels between two events,
-- transport/owr_transport_agent.c.
use openwebrtc.Prelude.{
  ℕ, ◌%◌, ◌^◌, ◌+◌, ◌≡◌, refl, sym, subst, ◌∙◌, if_both, ◌&&◌, Bool, true, false, not, Option, none,
  some, List, [], ◌∷◌, arith, Map, lookup, insert, remove, lookup-insert, lookup-remove,
}
use openwebrtc.Outcome.{Ensures, bind-Ensures, require-Ensures, check-Ensures, if-Ensures}
use openwebrtc.Gst.{ByteIo}
use openwebrtc.Protocol.{open_request, create_datachannel_ack}
use openwebrtc.DataChannel.{DataChannel}
use openwebrtc.Agent.{Agent, open_state, Session, get_session, ChannelInfo, put_info, push_control}
use openwebrtc.Agent.Open.{
  Elements, make_appsrc, contains, has_both_limits, has_invalid_id, register_datachannel,
  is_requested, install_closures, new_or_requested, open_locally, take_up, add_all,
  on_sctp_association_established, create_datachannel_appsrc, create_datachannel,
  complete_data_channel_and_ack, announce, on_new_datachannel, new_info, open_channel,
  finish_datachannel, request_of,
}

-- Each entry stands under its own id.
abbrev pub Keyed : Map ChannelInfo → Type 0
Keyed m = (k : ℕ) (info : ChannelInfo) → lookup k m ≡ some info → info.id ≡ k

pub insert-Keyed :
    (key : ℕ) (v : ChannelInfo) (m : Map ChannelInfo)
    → v.id ≡ key
    → Keyed m
    → Keyed (insert key v m)
insert-Keyed key v m h keyed k info e = ground (arith, lookup-insert key k v m, keyed k info)

pub remove-Keyed : (key : ℕ) (m : Map ChannelInfo) → Keyed m → Keyed (remove key m)
remove-Keyed key m keyed k info e = ground (arith, lookup-remove key k m, keyed k info)

-- The table is keyed by id, and its lock is free.
pub record Inv (a : Agent) : Type 0 where
  pub keyed : Keyed a.data_channels
  pub unlocked : a.locked ≡ false

pub put-Inv :
    (key : ℕ) (info : ChannelInfo) {a : Agent} → info.id ≡ key → Inv a → Inv (put_info key info a)
put-Inv key info {a} h v = record {
  keyed = insert-Keyed key info a.data_channels h v.keyed;
  unlocked = v.unlocked;
}

-- The parts of the state that the invariant does not speak of may change.
pub other-Inv :
    {a : Agent} (b : Agent)
    → b.data_channels ≡ a.data_channels
    → b.locked ≡ a.locked
    → Inv a
    → Inv b
other-Inv {a} b e f v = record { keyed = subst Keyed (sym e) v.keyed; unlocked = f ∙ v.unlocked }

pub push_control-Inv :
    (key : ℕ) (info : ChannelInfo) (msg : List ℕ × ℕ) {a : Agent}
    → info.id ≡ key
    → Inv a
    → Inv (push_control key info msg a)
unfolding push_control
push_control-Inv key info msg {a} h v =
    let counted : Inv (
        put_info key (record info { ctrl_bytes_sent = (info.ctrl_bytes_sent + msg.1) % 2 ^ 32 })
          a) =
      put-Inv key _ h v in
    if_both Inv info.data_src _ _ (other-Inv _ refl refl counted) counted

abbrev AgentInv : Agent × Bool → Type 0
AgentInv r = Inv r.0

make_appsrc-Inv :
    (e : Elements) (c : DataChannel) (info : ChannelInfo) (session : Option Session) {a : Agent}
    → info.id ≡ c.id
    → Inv a
    → Inv (make_appsrc e c info session a).0
unfolding make_appsrc
make_appsrc-Inv e c info none h v = v
make_appsrc-Inv e c info (some session) h v =
    if_both AgentInv (e.send_output_bin && e.sctpenc && e.sctpenc_sinkpad) _ _
      (other-Inv _ refl refl (put-Inv c.id (record info { data_src = true }) h v)) v

appsrc-Inv :
    (e : Elements) (c : DataChannel) (a : Agent)
    → Inv a
    → Ensures AgentInv (create_datachannel_appsrc e c a)
unfolding create_datachannel_appsrc
appsrc-Inv e c a v = check-Ensures AgentInv (not a.locked) _ _ λ _.
    require-Ensures AgentInv (lookup c.id a.data_channels) _ _ λ info found.
      make_appsrc-Inv e c info (get_session a info.session_id) (v.keyed c.id info found) v

announce-Inv :
    (io : ByteIo) (c : DataChannel) (r : Agent × Bool)
    → AgentInv r
    → Ensures AgentInv (announce io c r)
unfolding announce
announce-Inv io c (a, false) v = v
announce-Inv io c (a, true) v =
    if-Ensures AgentInv c.negotiated _ _ (λ _. v)
      λ _. require-Ensures AgentInv (lookup c.id a.data_channels) _ _ λ info found.
        push_control-Inv c.id info (open_request io (request_of c)) (v.keyed c.id info found) v

register_datachannel-Inv :
    (e : Elements) (io : ByteIo) (session_id : ℕ) (c : DataChannel) (a : Agent)
    → lookup c.id a.data_channels ≡ none
    → Inv a
    → Ensures AgentInv (register_datachannel e io session_id c a)
unfolding register_datachannel new_info
register_datachannel-Inv e io session_id c a free v =
    if-Ensures AgentInv (contains c.id a.data_channels) _ _ (λ taken. absurd (ground arith))
      λ _.
        bind-Ensures AgentInv AgentInv
          (create_datachannel_appsrc e c (put_info c.id (new_info session_id c) a)) (announce io c)
          (appsrc-Inv e c _ (put-Inv c.id (new_info session_id c) refl v)) (announce-Inv io c)

create_datachannel-Inv :
    (e : Elements) (io : ByteIo) (session_id : ℕ) (c : DataChannel) (a : Agent)
    → lookup c.id a.data_channels ≡ none
    → Inv a
    → Ensures AgentInv (create_datachannel e io session_id c a)
unfolding create_datachannel
create_datachannel-Inv e io session_id c a free v =
    if-Ensures AgentInv (has_both_limits c) _ _ (λ _. v)
      λ _.
        if-Ensures AgentInv (has_invalid_id a session_id c) _ _ (λ _. v)
          λ _.
            check-Ensures AgentInv (not a.locked) _ _
              λ _. register_datachannel-Inv e io session_id c a free v

complete-Inv :
    (e : Elements) (io : ByteIo) (c : DataChannel) (a : Agent)
    → Inv a
    → Ensures Inv (complete_data_channel_and_ack e io c a)
unfolding complete_data_channel_and_ack
complete-Inv e io c a v =
    bind-Ensures Inv AgentInv (create_datachannel_appsrc e c a) _ (appsrc-Inv e c a v) λ r w.
      check-Ensures Inv (not r.0.locked) _ _ λ _.
        require-Ensures Inv (lookup c.id r.0.data_channels) _ _ λ info found.
          push_control-Inv c.id info (create_datachannel_ack io) (w.keyed c.id info found) w

open_channel-Inv :
    (ref : ℕ) (c : DataChannel) (a : Agent) → Inv a → Ensures Inv (open_channel ref c a)
unfolding open_channel
open_channel-Inv ref c a v = check-Ensures Inv (not a.locked) _ _ λ _.
    require-Ensures Inv (lookup c.id a.data_channels) _ _ λ info found.
      check-Ensures Inv (not info.read_locked) _ _ λ _.
        other-Inv _ refl refl
          (put-Inv c.id (record info { state = open_state }) (v.keyed c.id info found) v)

finish-Inv :
    (e : Elements) (io : ByteIo) (ref : ℕ) (c : DataChannel) (remote : Bool) (a : Agent)
    → Inv a
    → Ensures Inv (finish_datachannel e io ref c remote a)
unfolding finish_datachannel
finish-Inv e io ref c true a v =
    bind-Ensures Inv Inv
      (complete_data_channel_and_ack e io c
        (record a { objects = insert ref (install_closures c) a.objects }))
      (open_channel ref c) (complete-Inv e io c _ (other-Inv _ refl refl v))
      (open_channel-Inv ref c)
finish-Inv e io ref c false a v =
    if-Ensures Inv c.negotiated _ _ (λ _. open_channel-Inv ref c _ (other-Inv _ refl refl v))
      (λ _. other-Inv _ refl refl v)

new_or_requested-Inv :
    (e : Elements) (io : ByteIo) (s ref : ℕ) (c : DataChannel) (found : Option ChannelInfo)
    (a : Agent)
    → lookup c.id a.data_channels ≡ found
    → Inv a
    → Ensures Inv (new_or_requested e io s ref c found a)
unfolding new_or_requested open_locally take_up
new_or_requested-Inv e io s ref c none a eq v =
    bind-Ensures Inv AgentInv (create_datachannel e io s c a) _
      (create_datachannel-Inv e io s c a eq v)
      λ r w. if-Ensures Inv r.1 _ _ (λ _. finish-Inv e io ref c false r.0 w) (λ _. w)
new_or_requested-Inv e io s ref c (some info) a eq v =
    if-Ensures Inv (is_requested c info) _ _ (λ _. finish-Inv e io ref c true a v)
      λ _. put-Inv c.id (record info { read_locked = true }) (v.keyed c.id info eq) v

pub on_new_datachannel-Inv :
    (e : Elements) (io : ByteIo) (s ref : ℕ) (a : Agent)
    → Inv a
    → Ensures Inv (on_new_datachannel e io s ref a)
unfolding on_new_datachannel
on_new_datachannel-Inv e io s ref a v =
    if-Ensures Inv (not a.data_session_established) _ _ (λ _. v)
      λ _. require-Ensures Inv (lookup ref a.objects) _ _ λ c _.
        check-Ensures Inv (not a.locked) _ _
          λ _. new_or_requested-Inv e io s ref c (lookup c.id a.data_channels) a refl v

add_all-Inv :
    (e : Elements) (io : ByteIo) (s : ℕ) (refs : List (ℕ × ℕ)) (a : Agent)
    → Inv a
    → Ensures Inv (add_all e io s refs a)
unfolding add_all
add_all-Inv e io s [] a v = v
add_all-Inv e io s ((id, ref) ∷ rest) a v =
    bind-Ensures Inv Inv (on_new_datachannel e io s ref a) (add_all e io s rest)
      (on_new_datachannel-Inv e io s ref a v) (add_all-Inv e io s rest)

pub established-Inv :
    (e : Elements) (io : ByteIo) (established : Bool) (s : ℕ) (a : Agent)
    → Inv a
    → Ensures Inv (on_sctp_association_established e io established s a)
unfolding on_sctp_association_established
established-Inv e io established s a v =
    if-Ensures Inv established _ _
      (λ _.
        require-Ensures Inv (get_session a s) _ _
          λ session _. add_all-Inv e io s session.data_channels _ (other-Inv _ refl refl v))
      (λ _. other-Inv _ refl refl v)
