-- ===== src/Tests/Registry.antt =====
-- A renderer and a handle that come to one tag.
use openwebrtc.Prelude.{◌≡◌, refl, true, false, List, [], ◌∷◌, lookup, insert, remove}
use openwebrtc.Registry.{
  register_at, do_register, unregister_at, do_unregister, register_renderer_at, register_renderer,
  unregister_renderer_at, unregister_renderer,
}
use openwebrtc.Registry.View.{
  Op, register, unregister, add_renderer, drop_renderer, run, step, run_meaning, seen, view,
}
use openwebrtc.Registry.Refines.{run-meant}

abbrev ops : List Op
ops = add_renderer 1 60 ∷ register 1 900 ∷ register 1 901 ∷ unregister 1 ∷ drop_renderer 1 60 ∷ []

run-meant_example : seen (run ops []) ≡ run_meaning ops (view [])
run-meant_example = run-meant ops []

-- The renderer is told of the first handle, and that it has gone.
told_test :
    (run ops []).1
    ≡ record { renderer = 60; tag = 1; have_handle = true; handle = 900 }
      ∷ record { renderer = 60; tag = 1; have_handle = false; handle = 0 }
      ∷ []
unfolding run step do_register register_at do_unregister unregister_at register_renderer
    register_renderer_at unregister_renderer unregister_renderer_at lookup insert remove
told_test = refl
