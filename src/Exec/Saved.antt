-- ===== src/Exec/Saved.antt =====
-- `ggsql_save` of src/ggsql_exec.cpp: what is written where, without a server or a browser.
use ggsql_duckdb.Prelude.{◌≡◌, refl, ap₂, Bool, true, false, some, ◌∷◌, ◌++◌, arith, if◌then◌else◌}
use ggsql_duckdb.Server.Registry.{Text, Bytes}
use ggsql_duckdb.Exec.Run.{Outcome, done, failed, panicked, Crates, World}
use ggsql_duckdb.Exec.Query.{
  interrupt, Attempt, returned, thrown, Settings, or_empty, OutputConfig, is_binary_name,
  resolve_output_config, Moment, save_resolved, writer_for_path, FileEffect, untouched,
  unknown_content, written, write_file, save_payload, save_with, ggsql_save,
}
use ggsql_duckdb.Exec.Modes.{
  OutputMode, silent_mode, url_mode, spec_mode, html_mode, svg_mode, pdf_mode, hep_mode, display,
  queried, performed, perform, judged, evaluated,
}
use ggsql_duckdb.Exec.Suffix.{file_suffix, IsNamed, writer_for_path-IsNamed}
use ggsql_duckdb.Exec.Refined.{is_binary_name-name, run_ggsql_query-evaluated}

judged-returned :
    (interrupted : Bool) (o : Outcome Bytes) (payload : Bytes)
    → judged interrupted o ≡ returned payload
    → o ≡ done payload
judged-returned true o payload e = cc
judged-returned false (done p) payload e = cc
judged-returned false (failed x) payload e = cc
judged-returned false panicked payload e = cc

resolve_output_config-options :
    (lower_text : Text → Text) (settings : Settings) (cfg : OutputConfig)
    → resolve_output_config lower_text settings ≡ returned cfg
    → cfg.options ≡ or_empty settings.ggsql_writer_options
unfolding resolve_output_config
resolve_output_config-options lower_text settings cfg e = ground arith

pair_eq : {A B : Type 0} {r : A × B} {a : A} {b : B} → r.0 ≡ a → r.1 ≡ b → r ≡ (a, b)
pair_eq e f = ap₂ (λ x y. (x, y)) e f

module _ {Spec Options Writer : Type 0} (crates : Crates Spec Options Writer) where
  -- The file at the path holds what the mode of its ending makes of the query.
  pub record IsSaved (lower_text : Text → Text) (m : Moment) (query options path : Text) (w : World)
      (file : FileEffect) : Type 0 where
    pub stem : Text
    pub ext : Text
    pub mode : OutputMode
    pub payload : Bytes
    pub joined : path ≡ stem ++ (b'.' ∷ ext)
    pub suffix : file_suffix mode ≡ some (lower_text ext)
    pub drawn : perform crates m mode query options w ≡ (done payload, w)
    pub held : file ≡ written payload

  -- What a save that throws has done to the file: nothing, unless the query gave a payload and the file
  -- was opened; then, the write or the close having failed, nothing is said of what it holds.
  abbrev pub AfterThrow : Moment → FileEffect → Type 0
  AfterThrow m untouched = Unit
  AfterThrow m unknown_content = (m.file_opens ≡ true) × (m.file_writes ≡ false)
  AfterThrow m (written payload) = ⊥

  abbrev pub IsVerdict :
      (Text → Text) → Moment → Text → Text → Text → World → Attempt Text → FileEffect → Type 0
  IsVerdict lower_text m query options path w (returned p) file =
      (p ≡ path) × IsSaved lower_text m query options path w file
  IsVerdict lower_text m query options path w (thrown e) file = AfterThrow m file

  display-unchanged :
      (m : Moment) (mode : OutputMode) (options : Text) (w : World) (spec : Spec) (ext : Text)
      → file_suffix mode ≡ some ext
      → (display crates m mode options w spec).1 ≡ w
  display-unchanged m silent_mode options w spec ext e = cc
  display-unchanged m url_mode options w spec ext e = cc
  display-unchanged m spec_mode options w spec ext e = refl
  display-unchanged m html_mode options w spec ext e = refl
  display-unchanged m svg_mode options w spec ext e = refl
  display-unchanged m pdf_mode options w spec ext e = refl
  display-unchanged m hep_mode options w spec ext e = refl

  perform-unchanged :
      (m : Moment) (mode : OutputMode) (query options : Text) (w : World) (ext : Text)
      → file_suffix mode ≡ some ext
      → (perform crates m mode query options w).1 ≡ w
  perform-unchanged m mode query options w ext e = go (queried crates query options)
    where
      go : (o : Outcome Spec) → (performed crates m mode options w o).1 ≡ w
      go (done spec) = display-unchanged m mode options w spec ext e
      go (failed e) = refl
      go panicked = refl

  evaluated-unchanged :
      (m : Moment) (mode : OutputMode) (query options : Text) (w : World) (ext : Text)
      → file_suffix mode ≡ some ext
      → (evaluated crates m mode query options w).1 ≡ w
  evaluated-unchanged m mode query options w ext e =
      go (judged m.interrupted_after (perform crates m mode query options w).0) m.interrupted_before
        (perform-unchanged m mode query options w ext e)
    where
      go :
          (r : Attempt Bytes) {v : World} (before : Bool)
          → v ≡ w
          → (if◌then◌else◌ {A = Attempt Bytes × World} before (thrown interrupt, w) (r, v)).1 ≡ w
      go r true e = refl
      go r false e = e

  evaluated-returned :
      (m : Moment) (mode : OutputMode) (query options payload : Text) (w : World)
      → (evaluated crates m mode query options w).0 ≡ returned payload
      → (perform crates m mode query options w).0 ≡ done payload
  evaluated-returned m mode query options payload w = go m.interrupted_before
    where
      go :
          (before : Bool)
          → (if◌then◌else◌ {A = Attempt Bytes × World} before
              (thrown interrupt, w)
              (
                judged m.interrupted_after (perform crates m mode query options w).0,
                (perform crates m mode query options w).1,
              )).0
            ≡ returned payload
          → (perform crates m mode query options w).0 ≡ done payload
      go true e = cc
      go false e =
          judged-returned m.interrupted_after (perform crates m mode query options w).0 payload e

  -- What follows the query in a save.
  save_payload-IsVerdict :
      (lower_text : Text → Text) (m : Moment) (query options path : Text) (w : World)
      (r : Attempt Bytes × World)
      → r.1 ≡ w
      → ((payload : Bytes)
          → r.0 ≡ returned payload
          → IsSaved lower_text m query options path w (written payload))
      → let (s, file, v) = save_payload m path r in
        (v ≡ w) × IsVerdict lower_text m query options path w s file
  save_payload-IsVerdict lower_text m query options path w (thrown e, v) q saved = (q, tt)
  save_payload-IsVerdict lower_text m query options path w (returned payload, v) q saved =
      (q, go m.file_opens m.file_writes refl refl)
    where
      go :
          (opens writes : Bool)
          → m.file_opens ≡ opens
          → m.file_writes ≡ writes
          → let (s, file) = write_file m path payload in
            IsVerdict lower_text m query options path w s file
      go true true p q = let kept = saved payload refl in ground arith
      go true false p q = ground arith
      go false writes p q = ground arith

  save_with-IsVerdict :
      (lower_text : Text → Text) (m : Moment) (query options path writer : Text) (w : World)
      → IsNamed lower_text path writer
      → let cfg : OutputConfig = record {
        writer = writer;
        options = options;
        binary = is_binary_name writer;
      } in
        let (s, file, v) = save_with crates m cfg query path w in
        (v ≡ w) × IsVerdict lower_text m query options path w s file
  save_with-IsVerdict lower_text m query options path writer w n =
      rw
        (
          n.named,
          is_binary_name-name n.mode,
          run_ggsql_query-evaluated crates m n.mode query options w,
        )
        (save_payload-IsVerdict lower_text m query options path w
          (evaluated crates m n.mode query options w)
          (evaluated-unchanged m n.mode query options w (lower_text n.ext) n.suffix)
          (λ payload e. record {
            stem = n.stem;
            ext = n.ext;
            mode = n.mode;
            payload = payload;
            joined = n.joined;
            suffix = n.suffix;
            drawn =
                pair_eq (evaluated-returned m n.mode query options payload w e)
                  (perform-unchanged m n.mode query options w (lower_text n.ext) n.suffix);
            held = refl;
          }))

  save_resolved-IsVerdict :
      (lower_text : Text → Text) (m : Moment) (query options path : Text) (w : World)
      (cfg : Attempt OutputConfig) (writer : Attempt Text)
      → ((c : OutputConfig) → cfg ≡ returned c → c.options ≡ options)
      → ((x : Text) → writer ≡ returned x → IsNamed lower_text path x)
      → let (s, file, v) = save_resolved crates m cfg writer query path w in
        (v ≡ w) × IsVerdict lower_text m query options path w s file
  save_resolved-IsVerdict lower_text m query options path w (thrown e) writer g n = (refl, tt)
  save_resolved-IsVerdict lower_text m query options path w (returned c) (thrown e) g n = (refl, tt)
  save_resolved-IsVerdict lower_text m query options path w (returned c) (returned x) g n =
      rw (g c refl) (save_with-IsVerdict lower_text m query options path x w (n x refl))

  -- A save starts no server and opens no browser. If it returns, it returns its path, and the file
  -- there holds what the mode of the path's ending makes of the query. If it throws, it has not opened
  -- the file, or it has opened the file and a write or the close has failed; what the file then holds
  -- is not known, and no file is reported as written.
  pub ggsql_save-IsVerdict :
      (lower_text : Text → Text) (settings : Settings) (m : Moment) (query path : Text) (w : World)
      → let (r, file, v) = ggsql_save crates lower_text settings m query path w in
        (v ≡ w)
        × IsVerdict lower_text m query (or_empty settings.ggsql_writer_options) path w r file
  unfolding ggsql_save
  ggsql_save-IsVerdict lower_text settings m query path w =
      save_resolved-IsVerdict lower_text m query (or_empty settings.ggsql_writer_options) path w
        (resolve_output_config lower_text settings) (writer_for_path lower_text path)
        (resolve_output_config-options lower_text settings)
        (writer_for_path-IsNamed lower_text path)
