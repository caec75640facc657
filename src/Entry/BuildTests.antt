-- ===== src/Entry/BuildTests.antt =====
-- A run of tools/hep-viewer/build.mjs on a package of small files, and the load of what it writes.
use ggsql_duckdb.Prelude.{
  ℕ, ◌+◌, ◌-◌, ◌<◌, ◌≡◌, refl, true, false, Bool, ◌&&◌, Option, none, some, [], ◌∷◌, leb, ltb,
  codes, arith,
}
use ggsql_duckdb.Entry.Base64.{AllBytes}
use ggsql_duckdb.Entry.Loader.{
  Bytes, faces, Browser, initialised, font_registered, style_appended, generic_family_set, done,
  join_lines, load_module,
}
use ggsql_duckdb.Entry.Loading.{face_rules}
use ggsql_duckdb.Entry.Build.{Text, Node, build}
use ggsql_duckdb.Entry.Script.{is_plain, evaluate}
use ggsql_duckdb.Entry.Built.{IsUndone, build-load_module}

-- An encoding of bytes as characters from 128 on.
abbrev encode : Bytes → Text
encode [] = []
encode (c ∷ b) = (c + 128) ∷ encode b

abbrev push : Bool → ℕ → Option Bytes → Option Bytes
push true c (some b) = some (c ∷ b)
push _ c _ = none

abbrev decode : Text → Option Bytes
decode [] = some []
decode (c ∷ s) = push (leb 128 c && ltb c 384) (c - 128) (decode s)

decode-encode : (b : Bytes) → AllBytes b → decode (encode b) ≡ some b
decode-encode [] a = refl
decode-encode (c ∷ b) (l, a) = ground (arith, decode-encode b a)

encode_plain : (b : Bytes) → AllBytes b → is_plain (encode b) ≡ true
encode_plain [] a = refl
encode_plain (c ∷ b) (l, a) = ground (arith, encode_plain b a)

decode_binary : (s binary : Text) → decode s ≡ some binary → AllBytes binary
decode_binary [] binary e = ground arith
decode_binary (c ∷ s) binary e = go (leb 128 c && ltb c 384) refl (decode s) (decode_binary s) e
  where
    go :
        (fits : Bool)
        → (leb 128 c && ltb c 384) ≡ fits
        → (o : Option Bytes) → ((b : Bytes) → o ≡ some b → AllBytes b)
        → push fits (c - 128) o ≡ some binary
        → AllBytes binary
    go true q (some b) later h =
        let same : (c - 128) ∷ b ≡ binary = cc in
        let small : c - 128 < 256 = ground arith in rw (← same) (small, later b refl)
    go true q none later h = cc
    go false q o later h = cc

abbrev node : Node
node = record {
  gzip = λ b. b;
  base64 = encode;
  read = λ file. some (1 ∷ 255 ∷ []);
  version = some (codes "1.0");
}

abbrev browser : Browser
browser = record {
  atob = decode;
  gunzip = λ b. some b;
  init = λ b. true;
  register_font = λ b. true;
  object_url = λ n. codes "blob:";
  set_generic_family = true;
}

read_binary : (b : Bytes) → some (1 ∷ 255 ∷ []) ≡ some b → AllBytes b
read_binary b e = let q : 1 ∷ 255 ∷ [] ≡ b = cc in rw (← q) (omega arith, (omega arith, tt))

node-IsUndone : IsUndone node browser
node-IsUndone = record {
  read_binary = λ file b e. read_binary b e;
  gzip_binary = λ b a. a;
  gunzip-gzip = λ b a. refl;
  base64_plain = encode_plain;
  atob-base64 = decode-encode;
  atob_binary = decode_binary;
}

build-load_module_example :
    (text : Text) × (build node ≡ some text)
    × (load_module browser (evaluate text) (record { effects = []; urls = 0 }) ≡ (
      done tt,
      record {
        effects =
            initialised (1 ∷ 255 ∷ [])
            ∷ font_registered (1 ∷ 255 ∷ [])
            ∷ font_registered (1 ∷ 255 ∷ [])
            ∷ font_registered (1 ∷ 255 ∷ [])
            ∷ font_registered (1 ∷ 255 ∷ [])
            ∷ style_appended (join_lines (face_rules browser 0 faces))
            ∷ generic_family_set
            ∷ [];
        urls = 4;
      },
    ))
build-load_module_example =
    build-load_module node browser (codes "1.0") (1 ∷ 255 ∷ []) (λ face. 1 ∷ 255 ∷ []) node-IsUndone
      refl refl refl (λ face. refl) refl (λ face. refl) refl
