-- ===== src/Registry.antt =====
-- The registry of window tags, local/owr_window_registry.c: the application registers a window
-- handle for a tag, a video renderer registers itself, in any order, and the renderer is told when
-- the tag has a handle. A tag is a number that stands for its text, a renderer an address. A method
-- returns the new table and what _owr_video_renderer_notify_tag_changed is called with.
pub mod View
pub mod Refines
use openwebrtc.Prelude.{
  ℕ, Bool, true, false, Option, none, some, List, [], ◌∷◌, ◌==◌, if◌then◌else◌, Map, lookup, insert,
  remove,
}

pub record WindowHandleData : Type 0 where
  pub window_handle : ℕ
  pub window_handle_set : Bool
  pub renderer : Option ℕ

abbrev pub Registry : Type 0
Registry = Map WindowHandleData

-- The arguments of _owr_video_renderer_notify_tag_changed.
pub record TagChanged : Type 0 where
  pub renderer : ℕ
  pub tag : ℕ
  pub have_handle : Bool
  pub handle : ℕ

-- A renderer, if there is one, is told.
abbrev pub notify : Option ℕ → ℕ → Bool → ℕ → List TagChanged
notify none tag have_handle handle = []
notify (some v) tag have_handle handle =
    record { renderer = v; tag = tag; have_handle = have_handle; handle = handle } ∷ []

unfoldable pub register_at : ℕ → ℕ → Registry → Option WindowHandleData → Registry × List TagChanged
register_at tag handle registry none = (
  insert tag (record { window_handle = handle; window_handle_set = true; renderer = none })
      registry,
  [],
)
register_at tag handle registry (some entry) = if entry.window_handle_set then (registry, []) else (
  insert tag (record entry { window_handle = handle; window_handle_set = true }) registry,
  notify entry.renderer tag true handle,
)

-- do_register: the handle NULL is refused.
unfoldable pub do_register : ℕ → ℕ → Registry → Registry × List TagChanged
do_register tag handle registry =
    if handle == 0 then (registry, []) else register_at tag handle registry (lookup tag registry)

unfoldable pub unregister_at : ℕ → Registry → Option WindowHandleData → Registry × List TagChanged
unregister_at tag registry none = (registry, [])
unregister_at tag registry (some entry) = elim entry.renderer [
  | none ↦ (remove tag registry, [])
  | some v ↦ (
    insert tag (record entry { window_handle = 0; window_handle_set = false }) registry,
    notify (some v) tag false 0,
  )
]

unfoldable pub do_unregister : ℕ → Registry → Registry × List TagChanged
do_unregister tag registry = unregister_at tag registry (lookup tag registry)

unfoldable pub register_renderer_at :
    ℕ → ℕ → Registry → Option WindowHandleData → Registry × List TagChanged
register_renderer_at tag v registry none = (
  insert tag (record { window_handle = 0; window_handle_set = false; renderer = some v }) registry,
  [],
)
register_renderer_at tag v registry (some entry) = elim entry.renderer [
  | some other ↦ (registry, [])
  | none ↦ (
    insert tag (record entry { renderer = some v }) registry,
    if entry.window_handle_set then notify (some v) tag true entry.window_handle else [],
  )
]

unfoldable pub register_renderer : ℕ → ℕ → Registry → Registry × List TagChanged
register_renderer tag v registry = register_renderer_at tag v registry (lookup tag registry)

abbrev pub is_renderer : Option ℕ → ℕ → Bool
is_renderer none v = false
is_renderer (some other) v = other == v

unfoldable pub unregister_renderer_at : ℕ → ℕ → Registry → Option WindowHandleData → Registry
unregister_renderer_at tag v registry none = registry
unregister_renderer_at tag v registry (some entry) =
    if is_renderer entry.renderer v
    then if entry.window_handle_set
      then insert tag (record entry { renderer = none }) registry
      else remove tag registry
    else registry

unfoldable pub unregister_renderer : ℕ → ℕ → Registry → Registry
unregister_renderer tag v registry = unregister_renderer_at tag v registry (lookup tag registry)
