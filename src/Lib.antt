-- ===== src/Lib.antt =====
-- A verification library for OpenWebRTC, transport/ first of all: the candidates, sessions and ICE of
-- a peer connection, its data channels, what a media session sends and receives, and the receiver's
-- side of SCReAM congestion control. Beside them stand the registry of window tags and the local
-- sources of local/, and the message bus of owr/.
--
-- The program's parts and how they interact. An application makes an OwrDataChannel
-- (transport/owr_data_channel.c) and adds it to an OwrDataSession (transport/owr_data_session.c).
-- The OwrTransportAgent (transport/owr_transport_agent.c) is told of it by a closure, keeps a struct
-- DataChannel for it in its table `data_channels`, and opens it over SCTP: it writes an open request
-- and waits for an ACK, or takes up a channel that the other side has requested, and answers by an
-- ACK. From then on messages pass in both directions, by closures that the agent has installed on
-- the object in one, and by calls scheduled on the main thread in the other. The same agent watches
-- the RTP packets of media sessions and keeps for each the state that SCReAM feedback is made from.
-- Media and data sessions share the base OwrSession (transport/owr_session.c), which keeps the
-- OwrCandidates (transport/owr_candidate.c) of both sides, their pairs and the ICE state. The agent adds
-- a session to libnice with the helper servers and ports it knows, passes its remote candidates on, and
-- reports new local ones to it. An OwrMediaSession (transport/owr_media_session.c) keeps the payloads
-- (transport/owr_payload.c) it receives, and the payload and source it sends; when one of these changes,
-- the agent replaces the elements that send it.
-- Apart from these, a video renderer and the application meet in the window registry by a tag, and
-- messages go from their origins to the application over buses with a thread each.
--
-- The files.
--   Prelude, Prelude/*   shared names, tests, lists, tables, C integers, bits.
--   Outcome              a value or a fault: g_assert, NULL, a lock never released, a read past a
--                        buffer, freed memory; and Ensures, the rules by which a property follows such a run.
--   Gst                  the byte macros of GStreamer, a parameter with laws.
--   Sctp                 transport/owr_data_channel_protocol.h.
--   Protocol             the control messages: create_datachannel_open_request,
--                        create_datachannel_ack and the reading of an open request.
--   Protocol/RoundTrip, Protocol/Safety   proofs on them.
--   DataChannel          transport/owr_data_channel.c: the private struct, properties, methods.
--   DataChannel/*        its closures, its buffered amount, its capabilities for the encoder.
--   Agent                transport/owr_transport_agent.c: the part of the agent's state that data
--                        channels use, and helpers.
--   Agent/Open           create_datachannel, create_datachannel_appsrc, on_new_datachannel,
--                        complete_data_channel_and_ack, on_sctp_association_established.
--   Agent/Receive        new_data_callback, the control messages' handlers,
--                        handle_data_channel_message.
--   Agent/Close          sctpdec_pad_added, sctpdec_pad_removed, maybe_close_data_channel,
--                        on_datachannel_close.
--   Agent/Send           on_datachannel_send, on_datachannel_request_bytes_sent.
--   Agent/Events         the handlers as the events of one agent, in any order; sends and closes reach
--                        the agent by the closures of an object, transport/owr_data_channel.c.
--   Agent/Ids            proofs on the stream ids that a side may open.
--   Agent/Invariant, Agent/Steps   an invariant of the agent's table under every event.
--   Agent/Requests, Agent/Handshake, Agent/Opening, Agent/EndToEnd   how a channel is opened.
--   Agent/Delivery, Agent/Reliability, Agent/Bytes, Agent/Closing   messages, their reliability, the
--                        bytes that are buffered, and the close.
--   Scream               transport/owr_transport_agent.c: ScreamRx and its update in probe_rtp_info.
--   Scream/Feedback      the rest of probe_rtp_info, on_sending_rtcp, on_feedback_rtcp.
--   Scream/Window, Scream/History   proofs on the update.
--   Scream/Fci, Scream/Queue, Scream/Flush   proofs on the feedback.
--   Candidate            transport/owr_candidate.c: the object and its properties.
--   Candidate/Convert    _owr_candidate_new_from_nice_candidate, _owr_candidate_to_nice_candidate.
--   Candidate/Convert/*  proofs on them: the round trip, and what is refused.
--   Session              transport/owr_session.c: the private struct, properties, handlers, closures.
--   Session/Aggregate    the ICE state that is shown, from those of the components, and proofs.
--   Session/Remote       remote candidates and forced pairs.
--   Session/Credentials, Session/Credentials/Settled   the credentials that all local candidates share,
--                        and that their handlers end.
--   Session/Events, Session/Events/*   the methods in any order, and proofs.
--   Media                transport/owr_media_session.c: the private struct, properties, SRTP keys.
--   Media/Payload        transport/owr_payload.c: the object and its properties.
--   Media/Receive, Media/Receive/*   receive payloads and retransmission types, and proofs.
--   Media/Send, Media/Send/References   the payload and source that are sent, and their references.
--   DataSession          transport/owr_data_session.c: channels, association ids, SCTP elements.
--   DataSession/Channels proofs on the table of channels.
--   Ice                  transport/owr_transport_agent.c: add_session, helper servers, local addresses
--                        and ports, gathering.
--   Ice/Helper, Ice/Loop, Ice/Quiet, Ice/Served   proofs on what libnice has been told.
--   Ice/Remote           on_new_remote_candidate, on_local_candidate_change, emit_new_candidate,
--                        emit_candidate_gathering_done.
--   Ice/Remote/Forwarding   proofs on remote candidates.
--   Sending              transport/owr_transport_agent.c: on_new_send_payload, on_new_send_source and the
--                        making and removal of the elements.
--   Sending/Replaced     proofs on them.
--   Security             transport/owr_transport_agent.c: the DTLS-SRTP elements, their keys and ciphers.
--   Security/Keys        proofs on them.
--   LocalSource          local/owr_local_media_source.c, owr/owr_media_source.c: the pipeline of a local
--                        source and its volume element.
--   LocalSource/Events, LocalSource/Used   its operations in any order, and proofs.
--   Registry             local/owr_window_registry.c: window handles and renderers by tag.
--   Registry/View, Registry/Refines   the registry as two tables, and proofs.
--   Bus                  owr/owr_bus.c and owr/owr_message_origin.c: messages from origins to buses.
--   Bus/Counts, Bus/Posting, Bus/Delivery   reference counts, and where messages go.
--   Bus/Finalize         the end of a bus.
--   Tests/*              runs at concrete inputs.
--
-- State and operations. A GHashTable is an association list under insert, lookup and remove. Each
-- handler is a function from the agent's state to an Outcome of the next state; a call that the code
-- schedules on the main thread is appended to `tasks` and is an event of its own. A lock that a
-- function takes and gives back leaves no trace but for a check that it is free; a lock that a
-- function leaves taken is a flag in the state. Machine integers keep their width by % 2 ^ w.
-- Only the handlers of a candidate's credentials call each other without a structural measure. They
-- run on fuel, and two levels are enough, since a handler blocks those of the candidates
-- that it sets. A candidate, payload or closure that several objects share is a number, and what it
-- holds is read through a function.
--
-- The loop over the feedback queue takes GStreamer's answers as a function of the attempt.
--
-- Left out: the elements and pads of GStreamer, but for what they answer (Elements, in Agent and in
-- Sending), libnice, of which the calls are listed and the answers are arguments, DTLS, the media
-- pipelines, devices, renderers, the bridge and the bindings. A handler is one step: what two threads do
-- inside two handlers at the same time is not interleaved; whole posts and deliveries of the message
-- bus are, in any order.
pub mod Prelude
pub mod Gst
pub mod Outcome
pub mod Sctp
pub mod Protocol
pub mod DataChannel
pub mod Agent
pub mod Scream
pub mod Candidate
pub mod Session
pub mod Media
pub mod DataSession
pub mod Ice
pub mod Sending
pub mod Security
pub mod LocalSource
pub mod Registry
pub mod Bus
pub mod Tests
