-- ===== src/Agent/Ids.antt =====
-- Which stream ids a side may open, and which it accepts from the other side,
-- transport/owr_transport_agent.c.
use openwebrtc.Prelude.{ℕ, ◌<◌, ◌≡◌, true, false, not, some, arith}
use openwebrtc.Agent.{Agent, Session, get_session, is_valid_sctp_stream_id}

-- Between two sides in opposite roles and below 65535, a side accepts exactly the ids that the
-- other side may open, and an id that one side may open the other may not.
pub valid_ids_agree :
    (a b : Agent) (s t id : ℕ) (sa sb : Session)
    → get_session a s ≡ some sa
    → get_session b t ≡ some sb
    → sa.dtls_client_mode ≡ not sb.dtls_client_mode
    → id < 65535
    → (is_valid_sctp_stream_id a s id false ≡ is_valid_sctp_stream_id b t id true)
      × (is_valid_sctp_stream_id a s id false ≡ not (is_valid_sctp_stream_id b t id false))
unfolding is_valid_sctp_stream_id
valid_ids_agree a b s t id sa sb ea eb roles h = ground arith

-- The id 65535, which no side may open, is accepted from the other side in either role.
pub reserved_id_accepted :
    (a : Agent) (s : ℕ) (sa : Session)
    → get_session a s ≡ some sa
    → (is_valid_sctp_stream_id a s 65535 true ≡ true)
      × (is_valid_sctp_stream_id a s 65535 false ≡ false)
unfolding is_valid_sctp_stream_id
reserved_id_accepted a s sa e = ground arith
