-- ===== src/Media/Receive/Lookup.antt =====
-- The look-up of receive payloads, transport/owr_media_session.c, against a plain search.
use openwebrtc.Prelude.{
  ℕ, ◌≡◌, refl, ap, ◌∙◌, subst, Bool, true, false, ◌||◌, Option, none, some, List, [], ◌∷◌, ◌++◌,
  ◌==◌, ==_refl, if◌then◌else◌, arith, inl, inr, Bool-cases,
}
use openwebrtc.Media.{MediaSession}
use openwebrtc.Media.Payload.{Payload}
use openwebrtc.Media.Receive.{
  payload_found, add_receive_payload, rtx_uint, look_for, get_receive_payload,
}
use openwebrtc.Session.Remote.{member}

module _ (objects : ℕ → Payload) where
  abbrev pub type_of : ℕ → ℕ
  type_of p = (objects p).payload_type

  -- A payload serves a type that is its own or that of its retransmissions.
  abbrev pub serves : ℕ → ℕ → Bool
  serves payload_type p = type_of p == payload_type || rtx_uint objects p == payload_type

  abbrev pub first_serving : ℕ → List ℕ → Option ℕ
  first_serving payload_type [] = none
  first_serving payload_type (p ∷ ps) =
      let further = first_serving payload_type ps in
      if serves payload_type p then some p else further

  abbrev chosen : ℕ → Option ℕ × ℕ → Option ℕ
  chosen payload_type r = if r.1 == payload_type then r.0 else none

  look_for-first :
      (payload_type : ℕ) (ps : List ℕ) (payload : Option ℕ) (pt : ℕ)
      → (if pt == payload_type then payload else none) ≡ none
      → chosen payload_type (look_for objects payload_type ps payload pt)
        ≡ first_serving payload_type ps
  unfolding look_for
  look_for-first payload_type [] payload pt h = h
  look_for-first payload_type (p ∷ ps) payload pt h =
      elim (Bool-cases (type_of p == payload_type)) [
        | inl own ↦ rw (own, own) refl
        | inr other ↦ elim (Bool-cases (rtx_uint objects p == payload_type)) [
          | inl rtx ↦ rw (other, rtx, rtx) refl
          | inr apart ↦
              rw (other, apart)
                (look_for-first payload_type ps (some p) (rtx_uint objects p) (rw apart refl))
        ]
      ]

  none_either : (b : Bool) → ◌≡◌ {A = Option ℕ} (if b then none else none) none
  none_either true = refl
  none_either false = refl

  -- The look-up gives the first payload that serves the type, and none if none does.
  pub get_receive_payload-first :
      (payload_type : ℕ) (s : MediaSession)
      → get_receive_payload objects payload_type s ≡ first_serving payload_type s.receive_payloads
  unfolding get_receive_payload
  get_receive_payload-first payload_type s =
      look_for-first payload_type s.receive_payloads none 0 (none_either (0 == payload_type))

  -- Payloads of one list, no two of a type.
  abbrev pub IsTyped : List ℕ → Type 0
  IsTyped [] = Unit
  IsTyped (p ∷ ps) = (payload_found objects p ps ≡ false) × IsTyped ps

  abbrev pub add_all : List ℕ → MediaSession → MediaSession
  add_all [] s = s
  add_all (p ∷ ps) s = add_all ps (add_receive_payload objects p s)

  found-append :
      (p y : ℕ) (xs : List ℕ)
      → payload_found objects p (xs ++ y ∷ [])
        ≡ (payload_found objects p xs || (y == p || type_of y == type_of p))
  unfolding payload_found
  found-append p y [] = ground arith
  found-append p y (x ∷ xs) = ground (arith, found-append p y xs)

  IsTyped-append :
      (p : ℕ) (xs : List ℕ)
      → payload_found objects p xs ≡ false
      → IsTyped xs
      → IsTyped (xs ++ p ∷ [])
  unfolding payload_found
  IsTyped-append p [] h t = (refl, tt)
  IsTyped-append p (x ∷ xs) h t =
      (ground (arith, found-append x p xs, t.0), IsTyped-append p xs (ground arith) (t.1))

  pub other_type :
      (x p : ℕ) (xs : List ℕ)
      → payload_found objects x xs ≡ false
      → member p xs ≡ true
      → (type_of p == type_of x) ≡ false
  unfolding payload_found member
  other_type x p [] h m = ground arith
  other_type x p (y ∷ ys) h m = ground (arith, other_type x p ys)

  first_serving-typed :
      (p : ℕ) (xs : List ℕ)
      → IsTyped xs
      → member p xs ≡ true
      → ((q : ℕ) → member q xs ≡ true → (rtx_uint objects q == type_of p) ≡ false)
      → first_serving (type_of p) xs ≡ some p
  unfolding member
  first_serving-typed p [] t m apart = ground arith
  first_serving-typed p (x ∷ xs) t m apart = elim (Bool-cases (x == p)) [
    | inl same ↦
        let e : x ≡ p = ground arith in
        let own : (type_of x == type_of p) ≡ true =
          ap (λ y. type_of y == type_of p) e ∙ ==_refl (type_of p) in
        rw own (ap some e)
    | inr other ↦
        let m' : member p xs ≡ true = ground arith in
        let unlike : (type_of p == type_of x) ≡ false = other_type x p xs (t.0) m' in
        let differs : (type_of x == type_of p) ≡ false = ground arith in
        let alone : (rtx_uint objects x == type_of p) ≡ false = apart x (rw (==_refl x) refl) in
        rw (differs, alone) (first_serving-typed p xs (t.1) m' λ q n. apart q (ground (arith, n)))
  ]

  IsTyped-add :
      (p : ℕ) (s : MediaSession)
      → IsTyped s.receive_payloads
      → IsTyped (add_receive_payload objects p s).receive_payloads
  unfolding add_receive_payload
  IsTyped-add p s t = elim (Bool-cases (payload_found objects p s.receive_payloads)) [
    | inl old ↦ rw old t
    | inr new ↦ rw new (IsTyped-append p s.receive_payloads new t)
  ]

  found_self :
      (p : ℕ) (s : MediaSession)
      → payload_found objects p (add_receive_payload objects p s).receive_payloads ≡ true
  unfolding add_receive_payload
  found_self p s = elim (Bool-cases (payload_found objects p s.receive_payloads)) [
    | inl old ↦ rw old old
    | inr new ↦ rw (new, found-append p p s.receive_payloads, new, ==_refl p) refl
  ]

  found-kept :
      (k p : ℕ) (s : MediaSession)
      → payload_found objects k s.receive_payloads ≡ true
      → payload_found objects k (add_receive_payload objects p s).receive_payloads ≡ true
  unfolding add_receive_payload
  found-kept k p s h = elim (Bool-cases (payload_found objects p s.receive_payloads)) [
    | inl old ↦ rw old h
    | inr new ↦ rw (new, found-append k p s.receive_payloads, h) refl
  ]

  found-add_all :
      (k : ℕ) (ps : List ℕ) (s : MediaSession)
      → payload_found objects k s.receive_payloads ≡ true
      → payload_found objects k (add_all ps s).receive_payloads ≡ true
  found-add_all k [] s h = h
  found-add_all k (p ∷ ps) s h =
      found-add_all k ps (add_receive_payload objects p s) (found-kept k p s h)

  found-added :
      (k : ℕ) (ps : List ℕ) (s : MediaSession)
      → member k ps ≡ true
      → payload_found objects k (add_all ps s).receive_payloads ≡ true
  unfolding member
  found-added k [] s m = ground arith
  found-added k (p ∷ ps) s m = elim (Bool-cases (p == k)) [
    | inl h ↦
        let e : p ≡ k = ground arith in
        found-add_all k ps (add_receive_payload objects p s) (
          subst
            (λ j. payload_found objects j (add_receive_payload objects p s).receive_payloads ≡ true)
            e (found_self p s))
    | inr h ↦ found-added k ps (add_receive_payload objects p s) (ground arith)
  ]

  IsTyped-add_all :
      (ps : List ℕ) (s : MediaSession)
      → IsTyped s.receive_payloads
      → IsTyped (add_all ps s).receive_payloads
  IsTyped-add_all [] s t = t
  IsTyped-add_all (p ∷ ps) s t =
      IsTyped-add_all ps (add_receive_payload objects p s) (IsTyped-add p s t)

  -- Payloads are added to a session one after the other, to some of which no two are of a type.
  -- Then there are still no two of a type, each of those that were added is there or another of its
  -- type is, and a payload that is there is found by its type, unless the type is also that of some
  -- payload's retransmissions.
  pub get_receive_payload-added :
      (ps : List ℕ) (s : MediaSession)
      → IsTyped s.receive_payloads
      → IsTyped (add_all ps s).receive_payloads
        × ((p : ℕ)
            → member p ps ≡ true
            → payload_found objects p (add_all ps s).receive_payloads ≡ true)
        × ((p : ℕ)
            → member p (add_all ps s).receive_payloads ≡ true
            → ((q : ℕ)
                → member q (add_all ps s).receive_payloads ≡ true
                → (rtx_uint objects q == type_of p) ≡ false)
            → get_receive_payload objects (type_of p) (add_all ps s) ≡ some p)
  get_receive_payload-added ps s t =
      let typed = IsTyped-add_all ps s t in
      (
        typed,
        λ p m. found-added p ps s m,
        λ p m apart.
            get_receive_payload-first (type_of p) (add_all ps s)
            ∙ first_serving-typed p (add_all ps s).receive_payloads typed m apart,
      )
