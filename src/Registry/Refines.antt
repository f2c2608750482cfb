-- ===== src/Registry/Refines.antt =====
-- The registry's operations do what they mean, local/owr_window_registry.c.
use openwebrtc.Prelude.{
  ℕ, ◌≡◌, refl, ap, sym, ◌∙◌, Bool, true, false, Option, none, some, List, [], ◌∷◌, ◌++◌, arith,
  ◌==◌, if◌then◌else◌, lookup, insert, remove, lookup-insert, lookup-remove, Option-cases, inl, inr,
  Bool-cases, subst,
}
use mathlib.Core.Path.{fun_ext}
use openwebrtc.Registry.{
  WindowHandleData, Registry, TagChanged, notify, register_at, do_register, unregister_at,
  do_unregister, register_renderer_at, register_renderer, is_renderer, unregister_renderer_at,
  unregister_renderer,
}
use openwebrtc.Registry.View.{
  handle_in, renderer_in, handle_of, renderer_of, View, view, set, is_set, told, Op, register,
  unregister, add_renderer, drop_renderer, step, meaning, run, run_meaning, seen,
}

module _ (tag : ℕ) (registry : Registry) (found : Option WindowHandleData)
    (e : lookup tag registry ≡ found) where
  here : (t : ℕ) → (tag == t) ≡ true → lookup t registry ≡ found
  here t h = let same : tag ≡ t = ground arith in subst (λ k. lookup k registry ≡ found) same e

  set_handle : (t : ℕ) → handle_of t registry ≡ set tag (handle_in found) (view registry).0 t
  set_handle t = elim (Bool-cases (tag == t)) [ inl h ↦ rw (h, here t h) refl | inr h ↦ rw h refl ]

  set_renderer : (t : ℕ) → renderer_of t registry ≡ set tag (renderer_in found) (view registry).1 t
  set_renderer t = elim (Bool-cases (tag == t)) [
    | inl h ↦ rw (h, here t h) refl
    | inr h ↦ rw h refl
  ]

-- A store or a removal, seen on a table that a function of the entry gives.
module _ (f : Option WindowHandleData → Option ℕ) (tag : ℕ) (registry : Registry) where
  inserted :
      (entry : WindowHandleData) (t : ℕ)
      → f (lookup t (insert tag entry registry))
        ≡ set tag (f (some entry)) (λ k. f (lookup k registry)) t
  inserted entry t = elim (Bool-cases (tag == t)) [
    | inl h ↦ rw (lookup-insert tag t entry registry, h) refl
    | inr h ↦ rw (lookup-insert tag t entry registry, h) refl
  ]

  removed :
      (t : ℕ) → f (lookup t (remove tag registry)) ≡ set tag (f none) (λ k. f (lookup k registry)) t
  removed t = elim (Bool-cases (tag == t)) [
    | inl h ↦ rw (lookup-remove tag t registry, h) refl
    | inr h ↦ rw (lookup-remove tag t registry, h) refl
  ]

both :
    (r : Registry × List TagChanged) {v : View} {told_now : List TagChanged}
    → ((t : ℕ) → handle_of t r.0 ≡ v.0 t)
    → ((t : ℕ) → renderer_of t r.0 ≡ v.1 t)
    → r.1 ≡ told_now
    → seen r ≡ (v, told_now)
both r h k l = λ i. ((fun_ext h i, fun_ext k i), l i)

-- A store that keeps the handle, or the renderer.
module _ (tag : ℕ) (registry : Registry) (found : Option WindowHandleData)
    (e : lookup tag registry ≡ found) (entry : WindowHandleData) where
  keeps_handle :
      handle_in (some entry) ≡ handle_in found
      → (t : ℕ) → handle_of t (insert tag entry registry) ≡ handle_of t registry
  keeps_handle same t =
      inserted handle_in tag registry entry t
      ∙ rw same refl
      ∙ sym (set_handle tag registry found e t)

  keeps_renderer :
      entry.renderer ≡ renderer_in found
      → (t : ℕ) → renderer_of t (insert tag entry registry) ≡ renderer_of t registry
  keeps_renderer same t =
      inserted renderer_in tag registry entry t
      ∙ rw same refl
      ∙ sym (set_renderer tag registry found e t)

register-meant :
    (tag handle : ℕ) (registry : Registry) (found : Option WindowHandleData)
    → lookup tag registry ≡ found
    → (handle == 0) ≡ false
    → seen (register_at tag handle registry found) ≡ (
        if is_set (handle_in found) then (view registry, []) else (
          (set tag (some handle) (view registry).0, (view registry).1),
          notify (renderer_in found) tag true handle,
        ))
unfolding register_at
register-meant tag handle registry none e z =
    both (register_at tag handle registry none)
      (inserted handle_in tag registry
        (record { window_handle = handle; window_handle_set = true; renderer = none }))
      (keeps_renderer tag registry none e
        (record { window_handle = handle; window_handle_set = true; renderer = none }) refl)
      refl
register-meant tag handle registry (some entry) e z =
    let new = record entry { window_handle = handle; window_handle_set = true } in
    elim (Bool-cases entry.window_handle_set) [
      | inl s ↦ rw s refl
      | inr s ↦ rw s (
          both (insert tag new registry, notify entry.renderer tag true handle)
            (inserted handle_in tag registry new)
            (keeps_renderer tag registry (some entry) e new refl) refl)
    ]

abbrev entry_of : ℕ → Bool → Option ℕ → WindowHandleData
entry_of handle is_handle_set v = record {
  window_handle = handle;
  window_handle_set = is_handle_set;
  renderer = v;
}

unregister-entry :
    (tag handle : ℕ) (is_handle_set : Bool) (v : Option ℕ) (registry : Registry)
    → lookup tag registry ≡ some (entry_of handle is_handle_set v)
    → seen (unregister_at tag registry (some (entry_of handle is_handle_set v)))
      ≡ ((set tag none (view registry).0, (view registry).1), notify v tag false 0)
unfolding unregister_at
unregister-entry tag handle b none registry e =
    both (remove tag registry, []) (removed handle_in tag registry)
      (λ t.
        removed renderer_in tag registry t
        ∙ sym (set_renderer tag registry (some (entry_of handle b none)) e t))
      refl
unregister-entry tag handle b (some v) registry e =
    both (insert tag (entry_of 0 false (some v)) registry, notify (some v) tag false 0)
      (inserted handle_in tag registry (entry_of 0 false (some v)))
      (keeps_renderer tag registry (some (entry_of handle b (some v))) e (entry_of 0 false (some v))
        refl)
      refl

unregister-meant :
    (tag : ℕ) (registry : Registry) (found : Option WindowHandleData)
    → lookup tag registry ≡ found
    → seen (unregister_at tag registry found) ≡ (
      (set tag none (view registry).0, (view registry).1),
      notify (renderer_in found) tag false 0,
    )
unfolding unregister_at
unregister-meant tag registry none e =
    both (registry, []) (set_handle tag registry none e) (λ t. refl) refl
unregister-meant tag registry (some entry) e =
    unregister-entry tag entry.window_handle entry.window_handle_set entry.renderer registry e

add-meant :
    (tag v : ℕ) (registry : Registry) (found : Option WindowHandleData)
    → lookup tag registry ≡ found
    → seen (register_renderer_at tag v registry found) ≡ (
        if is_set (renderer_in found) then (view registry, []) else (
          ((view registry).0, set tag (some v) (view registry).1),
          told v tag (handle_in found),
        ))
unfolding register_renderer_at
add-meant tag v registry none e =
    let new : WindowHandleData = record {
      window_handle = 0;
      window_handle_set = false;
      renderer = some v;
    } in
    both (insert tag new registry, []) (keeps_handle tag registry none e new refl)
      (inserted renderer_in tag registry new) refl
add-meant tag v registry (some entry) e =
    let new = record entry { renderer = some v } in
    elim (Option-cases entry.renderer) [
      | inl n ↦ rw n (
          both
            (
              insert tag new registry,
              if entry.window_handle_set then notify (some v) tag true entry.window_handle else [],
            )
            (keeps_handle tag registry (some entry) e new refl)
            (inserted renderer_in tag registry new)
            (elim (Bool-cases entry.window_handle_set) [ inl s ↦ rw s refl | inr s ↦ rw s refl ]))
      | inr (w, s) ↦ rw s refl
    ]

drop-entry :
    (tag handle : ℕ) (is_handle_set : Bool) (v : Option ℕ) (registry : Registry)
    → lookup tag registry ≡ some (entry_of handle is_handle_set v)
    → seen (
      if is_handle_set
          then insert tag (entry_of handle is_handle_set none) registry
          else remove tag registry,
      [],
    )
      ≡ (((view registry).0, set tag none (view registry).1), [])
drop-entry tag handle true v registry e =
    both (insert tag (entry_of handle true none) registry, [])
      (keeps_handle tag registry (some (entry_of handle true v)) e (entry_of handle true none) refl)
      (inserted renderer_in tag registry (entry_of handle true none)) refl
drop-entry tag handle false v registry e =
    both (remove tag registry, [])
      (λ t.
        removed handle_in tag registry t
        ∙ sym (set_handle tag registry (some (entry_of handle false v)) e t))
      (removed renderer_in tag registry) refl

drop-meant :
    (tag v : ℕ) (registry : Registry) (found : Option WindowHandleData)
    → lookup tag registry ≡ found
    → seen (unregister_renderer_at tag v registry found, []) ≡ (
      (
        (view registry).0,
        if is_renderer (renderer_in found) v
            then set tag none (view registry).1
            else (view registry).1,
      ),
      [],
    )
unfolding unregister_renderer_at
drop-meant tag v registry none e = refl
drop-meant tag v registry (some entry) e = elim (Bool-cases (is_renderer entry.renderer v)) [
  | inr n ↦ rw n refl
  | inl y ↦
      rw y (drop-entry tag entry.window_handle entry.window_handle_set entry.renderer registry e)
]

step-meant : (op : Op) (registry : Registry) → seen (step op registry) ≡ meaning op (view registry)
unfolding step meaning do_register do_unregister register_renderer unregister_renderer
step-meant (register tag handle) registry = elim (Bool-cases (handle == 0)) [
  | inl z ↦ rw z refl
  | inr z ↦ rw z (register-meant tag handle registry (lookup tag registry) refl z)
]
step-meant (unregister tag) registry = unregister-meant tag registry (lookup tag registry) refl
step-meant (add_renderer tag v) registry = add-meant tag v registry (lookup tag registry) refl
step-meant (drop_renderer tag v) registry = drop-meant tag v registry (lookup tag registry) refl

abbrev later_of : List TagChanged → View × List TagChanged → View × List TagChanged
later_of now later = (later.0, now ++ later.1)

-- Whatever the registry holds, each of its four operations does on the two tables what it means,
-- and tells the renderers what that says, in runs of operations of any length and order.
pub run-meant :
    (ops : List Op) (registry : Registry)
    → seen (run ops registry) ≡ run_meaning ops (view registry)
unfolding run run_meaning
run-meant [] registry = refl
run-meant (op ∷ ops) registry =
    let now = step op registry in
    ap (λ (later : View × List TagChanged). later_of now.1 later) (run-meant ops now.0)
    ∙ ap (λ (seen_now : View × List TagChanged). later_of seen_now.1 (run_meaning ops seen_now.0))
        (step-meant op registry)
