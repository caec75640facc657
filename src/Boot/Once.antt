-- ===== src/Boot/Once.antt =====
-- How often the wasm module of rust/assets/hep-viewer.js is loaded, and what a failure leaves.
use ggsql_duckdb.Prelude.{◌≡◌, refl, sym, ap, ◌∙◌, Option, none, some, arith}
use ggsql_duckdb.Boot.Init.{
  Platform, Argument, ModuleOrPath, path, bytes, compiled, response, Globals, BootError, Result,
  done, failed, load, argument_path, omitted, options, deprecated, awaited, finish, start,
  finalize_init, init,
}

-- All but the warnings is as it was.
abbrev IsUntouched :
    {Module Instance : Type 0} → Globals Module Instance → Globals Module Instance → Type 0
IsUntouched s t = t ≡ record s { warnings = t.warnings }

module _ {Module Instance : Type 0} where
  finish-done :
      (platform : Platform Module Instance) (r : Result (Instance × Module))
      (s : Globals Module Instance) (exports : Instance)
      → (finish platform r s).0 ≡ done exports
      → (finish platform r s).1.wasm ≡ some exports
  unfolding finalize_init
  finish-done platform (failed e) s exports h = cc
  finish-done platform (done (i, m)) s exports h = cc

  start-done :
      (platform : Platform Module Instance) (o : Option (ModuleOrPath Module))
      (s : Globals Module Instance) (exports : Instance)
      → (start platform o s).0 ≡ done exports
      → (start platform o s).1.wasm ≡ some exports
  start-done platform none s exports h = cc
  start-done platform (some source) s exports h =
      finish-done platform (load platform source s).0 (load platform source s).1 exports h

  init-done :
      (platform : Platform Module Instance) (a : Argument Module) (s : Globals Module Instance)
      (exports : Instance)
      → (init platform a s).0 ≡ done exports
      → (init platform a s).1.wasm ≡ some exports
  unfolding init
  init-done platform a s exports h =
      let (m, t) = argument_path platform a s in
      ground (arith, start-done platform (awaited platform m) t exports)

  -- Once the start has succeeded, every later call gives the same exports and does nothing, with
  -- whatever argument and on whatever platform.
  init-init :
      (platform later : Platform Module Instance) (a b : Argument Module)
      (s t : Globals Module Instance) (exports : Instance)
      → init platform a s ≡ (done exports, t)
      → init later b t ≡ (done exports, t)
  unfolding init
  init-init platform later a b s t exports e =
      let w : t.wasm ≡ some exports =
        ap (λ r. r.1.wasm) (sym e) ∙ init-done platform a s exports (ap (λ r. r.0) e) in
      rw (w) refl

  load-IsUntouched :
      (platform : Platform Module Instance) (m : ModuleOrPath Module) (s : Globals Module Instance)
      → IsUntouched s (load platform m s).1
  unfolding load
  load-IsUntouched platform (path p) s = refl
  load-IsUntouched platform (bytes b) s = refl
  load-IsUntouched platform (compiled m) s = ground arith
  load-IsUntouched platform (response r) s = ground arith

  argument_path-IsUntouched :
      (platform : Platform Module Instance) (a : Argument Module) (s : Globals Module Instance)
      → IsUntouched s (argument_path platform a s).1
  argument_path-IsUntouched platform omitted s = refl
  argument_path-IsUntouched platform (options none) s = refl
  argument_path-IsUntouched platform (options (some m)) s = refl
  argument_path-IsUntouched platform (deprecated m) s = refl

  finish-failed :
      (platform : Platform Module Instance) (r : Result (Instance × Module))
      (s : Globals Module Instance) (e : BootError)
      → (finish platform r s).0 ≡ failed e
      → (finish platform r s).1 ≡ s
  finish-failed platform (failed d) s e h = refl
  finish-failed platform (done (i, m)) s e h = cc

  start-failed :
      (platform : Platform Module Instance) (o : Option (ModuleOrPath Module))
      (s : Globals Module Instance) (e : BootError)
      → (start platform o s).0 ≡ failed e
      → IsUntouched s (start platform o s).1
  start-failed platform none s e h = refl
  start-failed platform (some source) s e h =
      rw (finish-failed platform (load platform source s).0 (load platform source s).1 e h)
        (load-IsUntouched platform source s)

  -- A start that fails leaves the bundle as it was but for warnings, so that a later call tries
  -- again.
  init-failed :
      (platform : Platform Module Instance) (a : Argument Module) (s : Globals Module Instance)
      (e : BootError)
      → (init platform a s).0 ≡ failed e
      → IsUntouched s (init platform a s).1
  unfolding init
  init-failed platform a s e h =
      let (m, t) = argument_path platform a s in
      ground (
        arith,
        start-failed platform (awaited platform m) t e,
        argument_path-IsUntouched platform a s,
      )
