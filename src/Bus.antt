-- ===== src/Bus.antt =====
-- The message bus, owr/owr_bus.c and owr/owr_message_origin.c: an origin posts a message to the
-- buses that it is added to, each bus has a queue and a thread that calls the application, and the
-- message is freed with its last reference. Messages and buses are known by their addresses; a weak
-- reference to a bus is dead if the bus is not there. References to the origin are not counted.
pub mod Counts
pub mod Posting
pub mod Delivery
pub mod Finalize
use Prim.Native.Nat.{bit_and}
use openwebrtc.Prelude.{
  ℕ, suc, ◌-◌, Bool, true, false, Option, none, some, List, [], ◌∷◌, ◌++◌, ◌==◌, if◌then◌else◌, Map,
  lookup, insert, remove,
}
use openwebrtc.Outcome.{Outcome, ok, use_after_free, require, ◌>>=◌}

pub record Message : Type 0 where
  pub origin : ℕ
  pub message_type : ℕ  -- flags
  pub sub_type : ℕ
  pub contents : Option ℕ
  pub ref_count : ℕ

pub record OwrBus : Type 0 where
  pub message_type_mask : ℕ
  pub queue : List ℕ
  pub callback_func : Option ℕ

-- A call of the application: the callback and the message.
pub record Call : Type 0 where
  pub callback_func : ℕ
  pub message : Message

pub record World : Type 0 where
  pub buses : Map OwrBus
  pub messages : Map Message
  pub next : ℕ  -- the address of the next message
  pub calls : List Call

unfoldable pub message_ref : ℕ → World → Outcome World
message_ref m w = do
  message ← require (lookup m w.messages) use_after_free
  ok (record w {
    messages = insert m (record message { ref_count = suc message.ref_count }) w.messages;
  })

unfoldable pub message_unref : ℕ → World → Outcome World
message_unref m w = do
  message ← require (lookup m w.messages) use_after_free
  ok (
      if message.ref_count == 1 then record w { messages = remove m w.messages } else record w {
        messages = insert m (record message { ref_count = message.ref_count - 1 }) w.messages;
      })

abbrev pub push : ℕ → OwrBus → ℕ → World → World
push b bus m w = record w { buses = insert b (record bus { queue = bus.queue ++ m ∷ [] }) w.buses }

-- _owr_bus_post_message: a message whose type the mask leaves out is not queued.
unfoldable pub bus_post_message : ℕ → OwrBus → ℕ → World → Outcome World
bus_post_message b bus m w = do
  message ← require (lookup m w.messages) use_after_free
  if bit_and message.message_type bus.message_type_mask == 0
      then ok w
      else (message_ref m w >>= λ w'. ok (push b bus m w'))

-- One round of the loop over the origin's buses, with the rounds that follow: a dead one goes.
unfoldable pub post_at :
    ℕ → ℕ → Option OwrBus → World → (World → Outcome (List ℕ × World)) → Outcome (List ℕ × World)
post_at m b none w rest = rest w
post_at m b (some bus) w rest =
    bus_post_message b bus m w >>= λ w'. rest w' >>= λ r. ok (b ∷ r.0, r.1)

unfoldable pub post_all : ℕ → List ℕ → World → Outcome (List ℕ × World)
post_all m [] w = ok ([], w)
post_all m (b ∷ bs) w = post_at m b (lookup b w.buses) w (post_all m bs)

-- _owr_message_new.
unfoldable pub message_new : ℕ → ℕ → ℕ → Option ℕ → World → World
message_new origin message_type sub_type contents w = record w {
  messages =
      insert w.next
        (record {
          origin = origin;
          message_type = message_type;
          sub_type = sub_type;
          contents = contents;
          ref_count = 1;
        })
        w.messages;
  next = suc w.next;
}

-- owr_message_origin_post_message, for an origin that has a bus set.
unfoldable pub post_message : ℕ → ℕ → ℕ → Option ℕ → List ℕ → World → Outcome (List ℕ × World)
post_message origin message_type sub_type contents bus_set w = do
  r ← post_all w.next bus_set (message_new origin message_type sub_type contents w)
  w' ← message_unref w.next r.1
  ok (r.0, w')

abbrev invoke : Option ℕ → Message → List Call
invoke none message = []
invoke (some f) message = record { callback_func = f; message = message } ∷ []

-- One round of bus_thread_func, with the message that it has taken from the queue.
unfoldable pub handle_message : ℕ → Option ℕ → World → Outcome World
handle_message m callback w = do
  message ← require (lookup m w.messages) use_after_free
  message_unref m (record w { calls = w.calls ++ invoke callback message })

unfoldable pub pop_at : ℕ → OwrBus → List ℕ → World → Outcome World
pop_at b bus [] w = ok w
pop_at b bus (m ∷ rest) w =
    handle_message m bus.callback_func
      (record w { buses = insert b (record bus { queue = rest }) w.buses })

unfoldable pub bus_thread_at : ℕ → Option OwrBus → World → Outcome World
bus_thread_at b none w = ok w
bus_thread_at b (some bus) w = pop_at b bus bus.queue w

-- bus_thread_func waits if the queue is empty.
unfoldable pub bus_thread_func : ℕ → World → Outcome World
bus_thread_func b w = bus_thread_at b (lookup b w.buses) w

-- The property message-type-mask of a bus, and owr_bus_set_message_callback with a callback.
unfoldable pub set_message_type_mask : ℕ → OwrBus → OwrBus
set_message_type_mask mask bus = record bus { message_type_mask = mask }

unfoldable pub set_message_callback : ℕ → OwrBus → OwrBus
set_message_callback f bus = record bus { callback_func = some f }

-- An origin's set of buses, without repetition: adding a bus again replaces its entry.
unfoldable pub add_message_origin : ℕ → List ℕ → List ℕ
add_message_origin b [] = b ∷ []
add_message_origin b (k ∷ ks) =
    let further = k ∷ add_message_origin b ks in if k == b then k ∷ ks else further

unfoldable pub remove_message_origin : ℕ → List ℕ → List ℕ
remove_message_origin b [] = []
remove_message_origin b (k ∷ ks) = if k == b then ks else k ∷ remove_message_origin b ks

-- The rounds of bus_thread_func up to last_message, which stands behind the queue.
unfoldable pub drain : ℕ → OwrBus → List ℕ → World → Outcome World
drain b bus [] w = ok w
drain b bus (m ∷ rest) w = pop_at b bus (m ∷ rest) w >>= drain b (record bus { queue = rest }) rest

unfoldable pub finalize_at : ℕ → Option OwrBus → World → Outcome World
finalize_at b none w = ok w
finalize_at b (some bus) w =
    drain b bus bus.queue w >>= λ w'. ok (record w' { buses = remove b w'.buses })

-- owr_bus_finalize, when nobody refers to the bus: its thread handles what is queued and ends.
unfoldable pub finalize : ℕ → World → Outcome World
finalize b w = finalize_at b (lookup b w.buses) w
