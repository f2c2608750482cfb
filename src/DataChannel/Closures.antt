-- ===== src/DataChannel/Closures.antt =====
-- The closures that the transport agent installs on a data channel, transport/owr_data_channel.c.
-- The second part of a result lists the closures that are invalidated and released.
use openwebrtc.Prelude.{
  ℕ, ◌+◌, ◌≡◌, Option, none, some, List, [], ◌∷◌, ◌++◌, arith, ◌==◌, if◌then◌else◌,
}
use openwebrtc.DataChannel.{DataChannel, init}

abbrev pub released : Option ℕ → List ℕ
released none = []
released (some f) = f ∷ []

unfoldable pub set_on_send : DataChannel → Option ℕ → DataChannel × List ℕ
set_on_send c f = (record c { on_datachannel_send = f }, released c.on_datachannel_send)

unfoldable pub set_on_request_bytes_sent : DataChannel → Option ℕ → DataChannel × List ℕ
set_on_request_bytes_sent c f =
    (record c { on_request_bytes_sent = f }, released c.on_request_bytes_sent)

unfoldable pub set_on_close : DataChannel → Option ℕ → DataChannel × List ℕ
set_on_close c f = (record c { on_datachannel_close = f }, released c.on_datachannel_close)

unfoldable pub clear_closures : DataChannel → DataChannel × List ℕ
clear_closures c = (
  record c {
    on_datachannel_send = none;
    on_request_bytes_sent = none;
    on_datachannel_close = none;
  },
  released c.on_datachannel_send
      ++ (released c.on_request_bytes_sent ++ released c.on_datachannel_close),
)

-- The operations on the closures, of the agent and of finalize.
pub data ClosureOp : Type 0 where
  on_send on_request on_close : Option ℕ → ClosureOp
  clear : ClosureOp

abbrev pub apply : DataChannel → ClosureOp → DataChannel × List ℕ
apply c (on_send f) = set_on_send c f
apply c (on_request f) = set_on_request_bytes_sent c f
apply c (on_close f) = set_on_close c f
apply c clear = clear_closures c

-- How often a closure occurs: among those released, those given, and those installed.
abbrev pub count : ℕ → List ℕ → ℕ
count f [] = 0
count f (g ∷ gs) = (if g == f then 1 else 0) + count f gs

count-append : (f : ℕ) (xs ys : List ℕ) → count f (xs ++ ys) ≡ count f xs + count f ys
count-append f [] ys = omega arith
count-append f (x ∷ xs) ys = omega (arith, count-append f xs ys)

abbrev pub given : ClosureOp → List ℕ
given (on_send f) = released f
given (on_request f) = released f
given (on_close f) = released f
given clear = []

abbrev pub installed : DataChannel → List ℕ
installed c =
    released c.on_datachannel_send
    ++ (released c.on_request_bytes_sent ++ released c.on_datachannel_close)

unfoldable pub run : DataChannel → List ClosureOp → DataChannel × List ℕ
run c [] = (c, [])
run c (op ∷ ops) =
    let (c', freed) = apply c op in let (c'', more) = run c' ops in (c'', freed ++ more)

abbrev pub all_given : List ClosureOp → List ℕ
all_given [] = []
all_given (op ∷ ops) = given op ++ all_given ops

count-installed :
    (f : ℕ) (c : DataChannel)
    → count f (installed c)
      ≡ count f (released c.on_datachannel_send)
        + (count f (released c.on_request_bytes_sent) + count f (released c.on_datachannel_close))
count-installed f c = omega (
  arith,
  count-append f (released c.on_datachannel_send)
      (released c.on_request_bytes_sent ++ released c.on_datachannel_close),
  count-append f (released c.on_request_bytes_sent) (released c.on_datachannel_close),
)

apply-count :
    (f : ℕ) (c : DataChannel) (op : ClosureOp)
    → count f (apply c op).1 + count f (installed (apply c op).0)
      ≡ count f (given op) + count f (installed c)
unfolding set_on_send set_on_request_bytes_sent set_on_close clear_closures
apply-count f c (on_send g) =
    omega (arith, count-installed f c, count-installed f (record c { on_datachannel_send = g }))
apply-count f c (on_request g) =
    omega (arith, count-installed f c, count-installed f (record c { on_request_bytes_sent = g }))
apply-count f c (on_close g) =
    omega (arith, count-installed f c, count-installed f (record c { on_datachannel_close = g }))
apply-count f c clear = omega arith

run-count :
    (f : ℕ) (c : DataChannel) (ops : List ClosureOp)
    → count f (run c ops).1 + count f (installed (run c ops).0)
      ≡ count f (all_given ops) + count f (installed c)
unfolding run
run-count f c [] = omega arith
run-count f c (op ∷ ops) = omega (
  arith,
  apply-count f c op,
  run-count f (apply c op).0 ops,
  count-append f (apply c op).1 (run (apply c op).0 ops).1,
  count-append f (given op) (all_given ops),
)

-- From a new channel, whatever closures are set and cleared in whatever order: once the closures
-- are cleared, each closure has been released exactly as often as it was given.
pub clear_closures-releases :
    (f : ℕ) (ops : List ClosureOp)
    → let c = (run init ops).0 in
      count f ((run init ops).1 ++ (clear_closures c).1) ≡ count f (all_given ops)
unfolding clear_closures init
clear_closures-releases f ops = omega (
  arith,
  run-count f init ops,
  count-append f (run init ops).1 (clear_closures (run init ops).0).1,
)
