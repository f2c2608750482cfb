-- ===== src/Tests/DataSession.antt =====
-- A data session that is given three channels, two of them with one id.
use openwebrtc.Prelude.{ℕ, ◌≡◌, refl, some, List, [], ◌∷◌, lookup, insert}
use openwebrtc.DataSession.{
  DataSession, init, agent_view, add_data_channel, add_at, channel_ref, channel_unref,
  channel_added, create_encoder, create_decoder,
}
use openwebrtc.DataSession.Channels.{
  add_all, first_with, or_else, announced, is_taken, with_new_id, add_all-first,
}

abbrev listening : DataSession
listening = record (init 6) { on_datachannel_added = some 5 }

abbrev adds : List (ℕ × ℕ)
adds = (70, 1) ∷ (71, 3) ∷ (72, 1) ∷ []

add_all-first_example :
    ((id : ℕ)
      → lookup id (agent_view ((add_all adds listening).0)).data_channels
        ≡ or_else (lookup id listening.data_channels) (first_with id adds))
    × (announced ((add_all adds listening).1)
        ≡ with_new_id (λ k. is_taken (lookup k listening.data_channels)) adds)
add_all-first_example = add_all-first adds listening 5 refl

effects_test :
    (add_all adds listening).1
    ≡ channel_ref 70
      ∷ channel_added 5 70
      ∷ channel_ref 71
      ∷ channel_added 5 71
      ∷ channel_ref 72
      ∷ channel_unref 72
      ∷ []
unfolding add_data_channel add_at lookup insert init
effects_test = refl

-- Both SCTP elements have the session's association.
association_test :
    (create_encoder listening).association_id ≡ (create_decoder listening).association_id
unfolding create_encoder create_decoder
association_test = refl
