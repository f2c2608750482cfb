-- ===== src/Media/Receive/Retransmission.antt =====
-- The map of retransmission types, transport/owr_media_session.c.
use openwebrtc.Prelude.{
  ℕ, ◌≡◌, ◌≢◌, ◌↔◌, refl, ap, sym, ◌∙◌, subst, Bool, true, false, not, ◌&&◌, Option, none, some,
  List, [], ◌∷◌, ◌==◌, ==_refl, if◌then◌else◌, arith, inl, inr, Bool-cases, Map, lookup, insert,
  lookup-insert,
}
use openwebrtc.Prelude.Int.{nonneg}
use openwebrtc.Media.{MediaSession}
use openwebrtc.Media.Payload.{Payload}
use openwebrtc.Media.Receive.{
  payload_found, rtx_uint, want_receive_rtx_in, want_receive_rtx, pt_map_from, unless_empty,
  get_receive_rtx_pt_map,
}
use openwebrtc.Media.Receive.Lookup.{type_of, IsTyped, other_type}
use openwebrtc.Session.Remote.{member}

abbrev is_nil : Map ℕ → Bool
is_nil [] = true
is_nil (e ∷ es) = false

nil-insert : (k v : ℕ) (m : Map ℕ) → is_nil (insert k v m) ≡ false
unfolding insert
nil-insert k v [] = refl
nil-insert k v ((other, value) ∷ rest) = ground arith

nil-unless_empty : (m : Map ℕ) → (unless_empty m ≡ none) ↔ (is_nil m ≡ true)
nil-unless_empty [] = (λ e. refl, λ e. refl)
nil-unless_empty (e ∷ es) = ground arith

-- A look-up in the result: NULL has no field.
abbrev pub field : ℕ → Option (Map ℕ) → Option ℕ
field k none = none
field k (some m) = lookup k m

field-unless_empty : (k : ℕ) (m : Map ℕ) → field k (unless_empty m) ≡ lookup k m
unfolding lookup
field-unless_empty k [] = refl
field-unless_empty k (e ∷ es) = refl

module _ (objects : ℕ → Payload) where
  abbrev retransmits : ℕ → Bool
  retransmits p = nonneg ((objects p).rtx_payload_type)

  nil-pt_map_from :
      (ps : List ℕ) (m : Map ℕ)
      → is_nil (pt_map_from objects m ps) ≡ (is_nil m && not (want_receive_rtx_in objects ps))
  unfolding pt_map_from want_receive_rtx_in
  nil-pt_map_from [] m = ground arith
  nil-pt_map_from (p ∷ ps) m = elim (Bool-cases (retransmits p)) [
    | inl r ↦
        let new = insert (type_of objects p) (rtx_uint objects p) m in
        rw r (
          nil-pt_map_from ps new
          ∙ ground (arith, nil-insert (type_of objects p) (rtx_uint objects p) m))
    | inr r ↦ rw r (nil-pt_map_from ps m)
  ]

  -- What the payloads of a list put under a type, after what was there.
  abbrev put_under : ℕ → List ℕ → Option ℕ → Option ℕ
  put_under k [] before = before
  put_under k (p ∷ ps) before =
      put_under k ps
        (if type_of objects p == k && retransmits p then some (rtx_uint objects p) else before)

  lookup-pt_map_from :
      (k : ℕ) (ps : List ℕ) (m : Map ℕ)
      → lookup k (pt_map_from objects m ps) ≡ put_under k ps (lookup k m)
  unfolding pt_map_from
  lookup-pt_map_from k [] m = refl
  lookup-pt_map_from k (p ∷ ps) m = elim (Bool-cases (retransmits p)) [
    | inl r ↦
        let new = insert (type_of objects p) (rtx_uint objects p) m in
        rw r (
          lookup-pt_map_from k ps new
          ∙ ap (put_under k ps)
              (lookup-insert (type_of objects p) k (rtx_uint objects p) m ∙ ground arith))
    | inr r ↦ rw r (lookup-pt_map_from k ps m ∙ ap (put_under k ps) (ground arith))
  ]

  untouched :
      (p : ℕ) (xs : List ℕ) (before : Option ℕ)
      → payload_found objects p xs ≡ false
      → put_under (type_of objects p) xs before ≡ before
  unfolding payload_found
  untouched p [] before h = refl
  untouched p (x ∷ xs) before h =
      let differs : (type_of objects x == type_of objects p) ≡ false = ground arith in
      rw differs (untouched p xs before (ground arith))

  abbrev own_rtx : ℕ → Option ℕ
  own_rtx p = if retransmits p then some (rtx_uint objects p) else none

  put_by_own :
      (p : ℕ) (xs : List ℕ)
      → IsTyped objects xs
      → member p xs ≡ true
      → put_under (type_of objects p) xs none ≡ own_rtx p
  unfolding member
  put_by_own p [] t m = ground arith
  put_by_own p (x ∷ xs) t m = elim (Bool-cases (x == p)) [
    | inl same ↦
        let e : x ≡ p = ground arith in
        ap
          (λ y. put_under (type_of objects p) xs (
            if type_of objects y == type_of objects p && retransmits y
            then some (rtx_uint objects y)
            else none))
          e
        ∙ rw (==_refl (type_of objects p))
            (untouched p xs (own_rtx p) (subst (λ y. payload_found objects y xs ≡ false) e (t.0)))
    | inr other ↦
        let m' : member p xs ≡ true = ground arith in
        let unlike : (type_of objects p == type_of objects x) ≡ false =
          other_type objects x p xs (t.0) m' in
        let differs : (type_of objects x == type_of objects p) ≡ false = ground arith in
        rw differs (put_by_own p xs (t.1) m')
  ]

  want_iff :
      (b : Bool) (o : Option (Map ℕ)) → ((o ≡ none) ↔ (not b ≡ true)) → (b ≡ true) ↔ (o ≢ none)
  want_iff true o h = (λ e n. absurd (ground (arith, h.0 n)), λ n. refl)
  want_iff false o h = (λ e. absurd (ground arith), λ n. absurd (n (h.1 refl)))

  -- A session wants retransmissions exactly when there is a map of their types, and if no two of its
  -- payloads are of a type, the map gives for the type of each its retransmission type, and nothing
  -- for a payload without retransmission.
  pub want_receive_rtx-pt_map :
      (s : MediaSession)
      → IsTyped objects s.receive_payloads
      → ((want_receive_rtx objects s ≡ true) ↔ (get_receive_rtx_pt_map objects s ≢ none))
        × ((p : ℕ)
            → member p s.receive_payloads ≡ true
            → field (type_of objects p) (get_receive_rtx_pt_map objects s)
              ≡ (if retransmits p then some (rtx_uint objects p) else none))
  unfolding want_receive_rtx get_receive_rtx_pt_map lookup
  want_receive_rtx-pt_map s t = (
    want_iff (want_receive_rtx_in objects s.receive_payloads)
        (unless_empty (pt_map_from objects [] s.receive_payloads))
        (rw (sym (nil-pt_map_from s.receive_payloads []))
          (nil-unless_empty (pt_map_from objects [] s.receive_payloads))),
    λ p m.
        field-unless_empty (type_of objects p) (pt_map_from objects [] s.receive_payloads)
        ∙ lookup-pt_map_from (type_of objects p) s.receive_payloads []
        ∙ put_by_own p s.receive_payloads t m,
  )
