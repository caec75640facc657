-- ===== src/Boot/Init.antt =====
-- `__wbg_init`, `__wbg_load` and `__wbg_finalize_init` of rust/assets/hep-viewer.js.
use ggsql_duckdb.Prelude.{
  ℕ, Bool, true, false, not, ◌&&◌, Option, none, some, List, [], ◌∷◌, ◌++◌, if◌then◌else◌,
}

abbrev pub Bytes : Type 0
Bytes = List ℕ

abbrev pub Text : Type 0
Text = List ℕ

-- `Response.type`, by the values that the code tells apart
pub data ResponseType : Type 0 where
  basic cors default : ResponseType
  other_type : ResponseType

pub record Response : Type 0 where
  pub is_ok : Bool
  pub response_type : ResponseType
  -- whether `Content-Type` is `application/wasm`
  pub is_wasm : Bool
  -- what `arrayBuffer()` gives; `none` is a rejection
  pub body : Option Bytes

-- What the module can come from, and what a promise of it gives once it is awaited.
pub data ModuleOrPath (Module : Type 0) : Type 0 where
  -- a string, a `Request` or a `URL`, by its address
  path : Text → ModuleOrPath Module
  bytes : Bytes → ModuleOrPath Module
  compiled : Module → ModuleOrPath Module
  response : Response → ModuleOrPath Module

-- The argument of `__wbg_init`: left out, a plain object with the field or without it, or the
-- module itself, which is deprecated.
pub data Argument (Module : Type 0) : Type 0 where
  omitted : Argument Module
  options : Option (ModuleOrPath Module) → Argument Module
  deprecated : ModuleOrPath Module → Argument Module

-- What the browser does: `none` is a rejection.
pub record Platform (Module Instance : Type 0) : Type 0 where
  pub fetch : Text → Option Response
  pub has_streaming : Bool
  pub instantiate_streaming : Response → Option (Instance × Module)
  pub instantiate_bytes : Bytes → Option (Instance × Module)
  pub instantiate_module : Module → Option Instance
  -- `new URL("hephaestus_svg_wasm_bg.wasm", document.baseURI)`
  pub default_url : Text

pub data BootError : Type 0 where
  fetch_rejected bad_status rejected : BootError

pub data Warning : Type 0 where
  deprecated_parameters not_served_as_wasm : Warning

-- The buffer of a wasm memory, which gets a new one whenever it grows.
pub record Buffer : Type 0 where
  pub memory : ℕ
  pub generation : ℕ

-- The variables of the bundle; an instance stands for its exports.
pub record Globals (Module Instance : Type 0) : Type 0 where
  pub wasm : Option Instance
  pub wasm_instance : Option Instance
  pub wasm_module : Option Module
  -- `cachedDataViewMemory0` and `cachedUint8ArrayMemory0`, by their buffer
  pub cached_data_view : Option Buffer
  pub cached_uint8_array : Option Buffer
  -- `WASM_VECTOR_LEN` and `numBytesDecoded`
  pub vector_len : ℕ
  pub bytes_decoded : ℕ
  -- every `TextDecoder` that was made, by the bytes that it was given: the one in use first
  pub decoders : List ℕ
  -- newest last
  pub warnings : List Warning

pub data Result (A : Type 0) : Type 0 where
  done : A → Result A
  failed : BootError → Result A

abbrev pub expected_response_type : ResponseType → Bool
expected_response_type other_type = false
expected_response_type _ = true

-- What the promise of an instantiation came to.
abbrev pub settled : {A : Type 0} → Option A → Result A
settled none = failed rejected
settled (some a) = done a

module _ {Module Instance : Type 0} where
  abbrev pub warn : Warning → Globals Module Instance → Globals Module Instance
  warn w s = record s { warnings = s.warnings ++ (w ∷ []) }

  unfoldable pub finalize_init :
      Instance → Module → Globals Module Instance → Instance × Globals Module Instance
  finalize_init instance_ module_ s = (
    instance_,
    record s {
      wasm_instance = some instance_;
      wasm = some instance_;
      wasm_module = some module_;
      cached_data_view = none;
      cached_uint8_array = none;
    },
  )

module _ {Module Instance : Type 0} (platform : Platform Module Instance) where
  open platform use {
    fetch, has_streaming, instantiate_streaming, instantiate_bytes, instantiate_module, default_url,
  }

  abbrev pub Load : Type 0
  Load = Globals Module Instance → Result (Instance × Module) × Globals Module Instance

  -- `WebAssembly.instantiate(await module.arrayBuffer(), imports)`
  abbrev pub load_buffered : Response → Load
  load_buffered r s = elim r.body [
    | none ↦ (failed rejected, s)
    | some b ↦ (settled (instantiate_bytes b), s)
  ]

  -- the `try` around the streaming
  abbrev pub load_streaming : Response → Load
  load_streaming r s = elim (instantiate_streaming r) [
    | some loaded ↦ (done loaded, s)
    | none ↦
        if expected_response_type r.response_type && not r.is_wasm
        then load_buffered r (warn not_served_as_wasm s)
        else (failed rejected, s)
  ]

  -- A path does not get here: `__wbg_init` has fetched it.
  unfoldable pub load : ModuleOrPath Module → Load
  load (response r) s =
      if not r.is_ok
      then (failed bad_status, s)
      else (if has_streaming then load_streaming r s else load_buffered r s)
  load (compiled m) s = elim (instantiate_module m) [
    | none ↦ (failed rejected, s)
    | some i ↦ (done (i, m), s)
  ]
  load (bytes b) s = (settled (instantiate_bytes b), s)
  load (path p) s = (failed rejected, s)

  -- the argument, with the default filled in
  abbrev pub argument_path :
      Argument Module → Globals Module Instance → ModuleOrPath Module × Globals Module Instance
  argument_path omitted s = (path default_url, s)
  argument_path (options none) s = (path default_url, s)
  argument_path (options (some m)) s = (m, s)
  argument_path (deprecated m) s = (m, warn deprecated_parameters s)

  -- `await module_or_path`, after the `fetch` of a path
  abbrev pub awaited : ModuleOrPath Module → Option (ModuleOrPath Module)
  awaited (path p) = elim (fetch p) [ none ↦ none | some r ↦ some (response r) ]
  awaited m = some m

  abbrev pub finish :
      Result (Instance × Module)
      → Globals Module Instance
      → Result Instance × Globals Module Instance
  finish (failed e) s = (failed e, s)
  finish (done (i, m)) s = let (exports, t) = finalize_init i m s in (done exports, t)

  -- the second half of `__wbg_init`, from the awaited module on
  abbrev pub start :
      Option (ModuleOrPath Module)
      → Globals Module Instance
      → Result Instance × Globals Module Instance
  start none s = (failed fetch_rejected, s)
  start (some source) s = finish (load source s).0 (load source s).1

  unfoldable pub init :
      Argument Module → Globals Module Instance → Result Instance × Globals Module Instance
  init a s = elim s.wasm [
    | some exports ↦ (done exports, s)
    | none ↦ let (m, t) = argument_path a s in start (awaited m) t
  ]
