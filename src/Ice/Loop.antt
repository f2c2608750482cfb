-- ===== src/Ice/Loop.antt =====
-- The loop of add_helper_server_info over the streams, transport/owr_transport_agent.c.
use openwebrtc.Prelude.{
  ℕ, ◌≡◌, refl, ap, ◌∙◌, Bool, true, false, ◌&&◌, ◌||◌, [], ◌∷◌, ◌==◌, arith, if◌then◌else◌, Map,
}
use openwebrtc.Candidate.{NiceComponentType}
use openwebrtc.Ice.{IceAgent, update_helper_servers, gather_unless_deferred, for_streams}
use openwebrtc.Ice.Helper.{
  relays, gathers, turn_servers, is_stream, is_media, relays-update, gathers-update, relays-gather,
  gathers-gather,
}

-- What a loop over the streams of m leaves.
pub record Looped (found : Bool) (m : Map ℕ) (a b : IceAgent) : Type 0 where
  pub relays_then :
      (k : ℕ) (c : NiceComponentType)
      → is_media c ≡ true
      → relays k c [] b.calls ≡ (
          if found && is_stream k m
          then turn_servers a.helper_server_infos
          else relays k c [] a.calls)
  pub gathers_then :
      (k : ℕ)
      → gathers k b.calls
        ≡ (gathers k a.calls || (a.deferred_helper_server_adds == 0 && is_stream k m))
  pub same_infos : b.helper_server_infos ≡ a.helper_server_infos
  pub same_deferred : b.deferred_helper_server_adds ≡ a.deferred_helper_server_adds
  pub same_sessions : b.sessions ≡ a.sessions

if_either :
    {A : Type 0} (e r : Bool) (x y : A)
    → (if r then x else (if e then x else y)) ≡ (if e || r then x else y)
if_either true true x y = refl
if_either true false x y = refl
if_either false true x y = refl
if_either false false x y = refl

or_either : (g z e r : Bool) → ((g || (z && e)) || (z && r)) ≡ (g || (z && (e || r)))
or_either true z e r = refl
or_either false true true r = refl
or_either false true false r = refl
or_either false false e r = refl

pub for_streams-Looped :
    (found : Bool) (m : Map ℕ) (a : IceAgent) → Looped found m a (for_streams found m a)
unfolding for_streams update_helper_servers gather_unless_deferred
for_streams-Looped true [] a = record {
  relays_then = λ k c h. refl;
  gathers_then = λ k. ground arith;
  same_infos = refl;
  same_deferred = refl;
  same_sessions = refl;
}
for_streams-Looped false [] a = record {
  relays_then = λ k c h. refl;
  gathers_then = λ k. ground arith;
  same_infos = refl;
  same_deferred = refl;
  same_sessions = refl;
}
for_streams-Looped true ((s, session) ∷ rest) a =
    let told = update_helper_servers s a in
    let l = for_streams-Looped true rest (gather_unless_deferred s told) in
    record {
      relays_then = λ k c h.
          l.relays_then k c h
          ∙ ap (λ x. if is_stream k rest then turn_servers a.helper_server_infos else x)
              (relays-gather s k c told ∙ relays-update s k c a h)
          ∙ if_either (s == k) (is_stream k rest) (turn_servers a.helper_server_infos)
              (relays k c [] a.calls);
      gathers_then = λ k.
          l.gathers_then k
          ∙ ap (λ x. x || (a.deferred_helper_server_adds == 0 && is_stream k rest))
              (gathers-gather s k told
                ∙ ap (λ x. x || (a.deferred_helper_server_adds == 0 && s == k))
                    (gathers-update s k a))
          ∙ or_either (gathers k a.calls) (a.deferred_helper_server_adds == 0) (s == k)
              (is_stream k rest);
      same_infos = l.same_infos;
      same_deferred = l.same_deferred;
      same_sessions = l.same_sessions;
    }
for_streams-Looped false ((s, session) ∷ rest) a =
    let l = for_streams-Looped false rest (gather_unless_deferred s a) in
    record {
      relays_then = λ k c h. l.relays_then k c h ∙ relays-gather s k c a;
      gathers_then = λ k.
          l.gathers_then k
          ∙ ap (λ x. x || (a.deferred_helper_server_adds == 0 && is_stream k rest))
              (gathers-gather s k a)
          ∙ or_either (gathers k a.calls) (a.deferred_helper_server_adds == 0) (s == k)
              (is_stream k rest);
      same_infos = l.same_infos;
      same_deferred = l.same_deferred;
      same_sessions = l.same_sessions;
    }
