-- ===== src/Tests/Bus.antt =====
-- Two buses with different masks, one message, and a dead reference.
use openwebrtc.Prelude.{
  ℕ, ◌≡◌, refl, map, false, ◌++◌, ◌==◌, arith, none, some, List, [], ◌∷◌, lookup, insert, remove,
}
use openwebrtc.Outcome.{ok}
use openwebrtc.Bus.{
  World, message_ref, message_unref, bus_post_message, post_at, post_all, message_new, post_message,
}
use openwebrtc.Bus.Counts.{Counted}
use openwebrtc.Bus.Delivery.{living, enqueue_times, times_for, post_message-delivers}
use openwebrtc.Bus.Posting.{Step, none_held, post, deliver, run, run-Counted}
use openwebrtc.Bus.Finalize.{call_content, told, finalize-told}
use openwebrtc.Bus as B

abbrev start : World
start = record {
  buses =
      (1, record { message_type_mask = 3; queue = []; callback_func = some 8 })
      ∷ (2, record { message_type_mask = 4; queue = []; callback_func = none })
      ∷ [];
  messages = [];
  next = 100;
  calls = [];
}

start-Counted : Counted (λ m. 0) start
unfolding lookup
start-Counted = record { counts = λ m. refl; alive = λ m message e. cc; fresh = λ m h. refl }

abbrev steps : List Step
steps = post 5 2 0 none (1 ∷ 2 ∷ 9 ∷ []) ∷ deliver 2 ∷ deliver 1 ∷ []

run-Counted_example : (w : World) × (run steps start ≡ ok w) × Counted (λ m. 0) w
run-Counted_example = run-Counted steps start start-Counted

-- The first bus takes the message, the second does not, and the third is dropped from the set.
post_test :
    post_message 5 2 0 none (1 ∷ 2 ∷ 9 ∷ []) start
    ≡ ok (
      1 ∷ 2 ∷ [],
      record {
        buses =
            (1, record { message_type_mask = 3; queue = 100 ∷ []; callback_func = some 8 })
            ∷ (2, record { message_type_mask = 4; queue = []; callback_func = none })
            ∷ [];
        messages =
            (
              100,
              record { origin = 5; message_type = 2; sub_type = 0; contents = none; ref_count = 1 },
            )
            ∷ [];
        next = 101;
        calls = [];
      },
    )
unfolding post_message post_all post_at bus_post_message message_ref message_unref message_new
    lookup insert remove
post_test = refl

post_message-delivers_example :
    (r : List ℕ × World) × (post_message 5 2 0 none (1 ∷ 2 ∷ 9 ∷ []) start ≡ ok r)
    × (r.0 ≡ living (1 ∷ 2 ∷ 9 ∷ []) start.buses)
    × ((k : ℕ)
        → lookup k r.1.buses
          ≡ enqueue_times
              (times_for 100 2 k (1 ∷ 2 ∷ 9 ∷ []) (lookup k start.buses))
              100
              (lookup k start.buses))
post_message-delivers_example = post_message-delivers 5 2 0 none (1 ∷ 2 ∷ 9 ∷ []) start

-- A bus that is finalised with two messages in its queue.
abbrev queued_bus : B.OwrBus
queued_bus = record { message_type_mask = 3; queue = 100 ∷ 101 ∷ []; callback_func = some 8 }

abbrev queued : World
queued = record {
  buses = (1, queued_bus) ∷ [];
  messages =
      (100, record { origin = 5; message_type = 2; sub_type = 0; contents = none; ref_count = 1 })
      ∷ (
        101,
        record { origin = 6; message_type = 1; sub_type = 4; contents = some 3; ref_count = 1 },
      )
      ∷ [];
  next = 102;
  calls = [];
}

queued-there : lookup 1 queued.buses ≡ some queued_bus
unfolding lookup
queued-there = refl

queued-Counted : Counted none_held queued
unfolding lookup
queued-Counted = record {
  counts = λ m. ground arith;
  alive = λ m message e. ground arith;
  fresh = λ m h. ground arith;
}

finalize-told_example :
    (w' : World) × (B.finalize 1 queued ≡ ok w')
    × (map call_content w'.calls
        ≡ map call_content [] ++ told (some 8) (100 ∷ 101 ∷ []) queued.messages)
    × (lookup 1 w'.buses ≡ none)
    × ((k : ℕ) → (1 == k) ≡ false → lookup k w'.buses ≡ lookup k queued.buses)
finalize-told_example = finalize-told 1 queued_bus queued queued-there queued-Counted
