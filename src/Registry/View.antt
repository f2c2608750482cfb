-- ===== src/Registry/View.antt =====
-- The registry as two tables, one of handles and one of renderers, local/owr_window_registry.c.
use openwebrtc.Prelude.{
  ℕ, Bool, true, false, ◌||◌, Option, none, some, List, [], ◌∷◌, ◌++◌, ◌==◌, if◌then◌else◌, lookup,
}
use openwebrtc.Registry.{
  WindowHandleData, Registry, TagChanged, notify, do_register, do_unregister, register_renderer,
  is_renderer, unregister_renderer,
}

abbrev pub handle_in : Option WindowHandleData → Option ℕ
handle_in none = none
handle_in (some entry) = if entry.window_handle_set then some entry.window_handle else none

abbrev pub renderer_in : Option WindowHandleData → Option ℕ
renderer_in none = none
renderer_in (some entry) = entry.renderer

abbrev pub handle_of : ℕ → Registry → Option ℕ
handle_of tag registry = handle_in (lookup tag registry)

abbrev pub renderer_of : ℕ → Registry → Option ℕ
renderer_of tag registry = renderer_in (lookup tag registry)

abbrev pub is_set : Option ℕ → Bool
is_set none = false
is_set (some n) = true

-- A renderer that comes to a tag with a handle is told.
abbrev pub told : ℕ → ℕ → Option ℕ → List TagChanged
told v tag none = []
told v tag (some handle) = notify (some v) tag true handle

abbrev pub View : Type 0
View = (ℕ → Option ℕ) × (ℕ → Option ℕ)

abbrev pub view : Registry → View
view registry = (λ t. handle_of t registry, λ t. renderer_of t registry)

abbrev pub set : ℕ → Option ℕ → (ℕ → Option ℕ) → ℕ → Option ℕ
set tag value table t = if tag == t then value else table t

pub data Op : Type 0 where
  register : ℕ → ℕ → Op
  unregister : ℕ → Op
  add_renderer drop_renderer : ℕ → ℕ → Op

unfoldable pub step : Op → Registry → Registry × List TagChanged
step (register tag handle) registry = do_register tag handle registry
step (unregister tag) registry = do_unregister tag registry
step (add_renderer tag v) registry = register_renderer tag v registry
step (drop_renderer tag v) registry = (unregister_renderer tag v registry, [])

-- What each operation means on the two tables. A handle is only set where none is, a renderer only
-- where none is, and only the renderer that is set can go; a renderer is told whenever it and a
-- handle come together, and whenever the tag is unregistered.
unfoldable pub meaning : Op → View → View × List TagChanged
meaning (register tag handle) (handles, renderers) =
    if (handle == 0) || is_set (handles tag)
    then ((handles, renderers), [])
    else ((set tag (some handle) handles, renderers), notify (renderers tag) tag true handle)
meaning (unregister tag) (handles, renderers) =
    ((set tag none handles, renderers), notify (renderers tag) tag false 0)
meaning (add_renderer tag v) (handles, renderers) =
    if is_set (renderers tag)
    then ((handles, renderers), [])
    else ((handles, set tag (some v) renderers), told v tag (handles tag))
meaning (drop_renderer tag v) (handles, renderers) =
    ((handles, if is_renderer (renderers tag) v then set tag none renderers else renderers), [])

-- A run of operations, with all that the renderers are told.
unfoldable pub run : List Op → Registry → Registry × List TagChanged
run [] registry = (registry, [])
run (op ∷ ops) registry =
    let now = step op registry in let later = run ops now.0 in (later.0, now.1 ++ later.1)

unfoldable pub run_meaning : List Op → View → View × List TagChanged
run_meaning [] tables = (tables, [])
run_meaning (op ∷ ops) tables =
    let now = meaning op tables in let later = run_meaning ops now.0 in (later.0, now.1 ++ later.1)

abbrev pub seen : Registry × List TagChanged → View × List TagChanged
seen r = (view r.0, r.1)
