-- ===== src/FileTypes/Defaults/Front.antt =====
-- The front part of the table of default types (src/default_file_types.rs).
use weavatrix_scan.Common.{List, [], ◌∷◌}
use weavatrix_scan.Text.{Bytes, bytes}

abbrev pub default_types_front : List (List Bytes × List Bytes)
default_types_front =
    (bytes "ada" ∷ [], bytes "*.adb" ∷ bytes "*.ads" ∷ [])
    ∷ (bytes "agda" ∷ [], bytes "*.agda" ∷ bytes "*.lagda" ∷ [])
    ∷ (bytes "aidl" ∷ [], bytes "*.aidl" ∷ [])
    ∷ (bytes "alire" ∷ [], bytes "alire.toml" ∷ [])
    ∷ (bytes "alloy" ∷ [], bytes "*.als" ∷ [])
    ∷ (bytes "amake" ∷ [], bytes "*.mk" ∷ bytes "*.bp" ∷ [])
    ∷ (
      bytes "angular" ∷ [],
      bytes "*.component.html" ∷ bytes "*.component.scss" ∷ bytes "*.component.ts" ∷ [],
    )
    ∷ (
      bytes "ansible" ∷ [],
      bytes "playbook*.yml"
          ∷ bytes "playbook*.yaml"
          ∷ bytes "roles/*/tasks/*.yml"
          ∷ bytes "roles/*/tasks/*.yaml"
          ∷ [],
    )
    ∷ (bytes "asciidoc" ∷ [], bytes "*.adoc" ∷ bytes "*.asc" ∷ bytes "*.asciidoc" ∷ [])
    ∷ (bytes "asm" ∷ [], bytes "*.asm" ∷ bytes "*.s" ∷ bytes "*.S" ∷ [])
    ∷ (
      bytes "asp" ∷ [],
      bytes "*.aspx"
          ∷ bytes "*.aspx.cs"
          ∷ bytes "*.aspx.vb"
          ∷ bytes "*.ascx"
          ∷ bytes "*.ascx.cs"
          ∷ bytes "*.ascx.vb"
          ∷ bytes "*.asp"
          ∷ [],
    )
    ∷ (bytes "ats" ∷ [], bytes "*.ats" ∷ bytes "*.dats" ∷ bytes "*.sats" ∷ bytes "*.hats" ∷ [])
    ∷ (bytes "avro" ∷ [], bytes "*.avdl" ∷ bytes "*.avpr" ∷ bytes "*.avsc" ∷ [])
    ∷ (bytes "awk" ∷ [], bytes "*.awk" ∷ [])
    ∷ (bytes "bat" ∷ bytes "batch" ∷ [], bytes "*.bat" ∷ [])
    ∷ (
      bytes "bazel" ∷ bytes "starlark" ∷ [],
      bytes "*.bazel"
          ∷ bytes "*.bzl"
          ∷ bytes "*.BUILD"
          ∷ bytes "*.bazelrc"
          ∷ bytes "*.star"
          ∷ bytes "BUILD"
          ∷ bytes "MODULE.bazel"
          ∷ bytes "WORKSPACE"
          ∷ bytes "WORKSPACE.bazel"
          ∷ bytes "WORKSPACE.bzlmod"
          ∷ [],
    )
    ∷ (bytes "bicep" ∷ [], bytes "*.bicep" ∷ bytes "*.bicepparam" ∷ [])
    ∷ (
      bytes "bitbake" ∷ [],
      bytes "*.bb" ∷ bytes "*.bbappend" ∷ bytes "*.bbclass" ∷ bytes "*.conf" ∷ bytes "*.inc" ∷ [],
    )
    ∷ (bytes "biome" ∷ [], bytes "biome.json" ∷ bytes "biome.jsonc" ∷ [])
    ∷ (bytes "boxlang" ∷ [], bytes "*.bx" ∷ bytes "*.bxm" ∷ bytes "*.bxs" ∷ [])
    ∷ (bytes "brotli" ∷ [], bytes "*.br" ∷ [])
    ∷ (bytes "buck" ∷ [], bytes "BUCK" ∷ bytes "BUCK.*" ∷ bytes "*.buckconfig" ∷ [])
    ∷ (bytes "buildstream" ∷ [], bytes "*.bst" ∷ [])
    ∷ (bytes "bzip2" ∷ [], bytes "*.bz2" ∷ bytes "*.tbz2" ∷ [])
    ∷ (bytes "c" ∷ [], bytes "*.[chH]" ∷ bytes "*.[chH].in" ∷ bytes "*.cats" ∷ [])
    ∷ (bytes "cabal" ∷ [], bytes "*.cabal" ∷ [])
    ∷ (bytes "candid" ∷ [], bytes "*.did" ∷ [])
    ∷ (bytes "carp" ∷ [], bytes "*.carp" ∷ [])
    ∷ (bytes "cbor" ∷ [], bytes "*.cbor" ∷ [])
    ∷ (bytes "ceylon" ∷ [], bytes "*.ceylon" ∷ [])
    ∷ (bytes "cfml" ∷ [], bytes "*.cfc" ∷ bytes "*.cfm" ∷ [])
    ∷ (bytes "clojure" ∷ [], bytes "*.clj" ∷ bytes "*.cljc" ∷ bytes "*.cljs" ∷ bytes "*.cljx" ∷ [])
    ∷ (bytes "cmake" ∷ [], bytes "*.cmake" ∷ bytes "CMakeLists.txt" ∷ [])
    ∷ (bytes "cmd" ∷ [], bytes "*.bat" ∷ bytes "*.cmd" ∷ [])
    ∷ (bytes "cml" ∷ [], bytes "*.cml" ∷ [])
    ∷ (bytes "coffeescript" ∷ [], bytes "*.coffee" ∷ [])
    ∷ (bytes "config" ∷ [], bytes "*.cfg" ∷ bytes "*.conf" ∷ bytes "*.config" ∷ bytes "*.ini" ∷ [])
    ∷ (bytes "container" ∷ [], bytes "*Containerfile*" ∷ bytes "*Dockerfile*" ∷ [])
    ∷ (bytes "coq" ∷ [], bytes "*.v" ∷ [])
    ∷ (
      bytes "cpp" ∷ bytes "cxx" ∷ [],
      bytes "*.[ChH]"
          ∷ bytes "*.cc"
          ∷ bytes "*.[ch]pp"
          ∷ bytes "*.[ch]xx"
          ∷ bytes "*.hh"
          ∷ bytes "*.inl"
          ∷ bytes "*.[ChH].in"
          ∷ bytes "*.cc.in"
          ∷ bytes "*.[ch]pp.in"
          ∷ bytes "*.[ch]xx.in"
          ∷ bytes "*.hh.in"
          ∷ [],
    )
    ∷ (bytes "creole" ∷ [], bytes "*.creole" ∷ [])
    ∷ (
      bytes "crystal" ∷ [],
      bytes "Projectfile" ∷ bytes "*.cr" ∷ bytes "*.ecr" ∷ bytes "shard.yml" ∷ [],
    )
    ∷ (bytes "cs" ∷ [], bytes "*.cs" ∷ [])
    ∷ (bytes "csharp" ∷ [], bytes "*.cs" ∷ [])
    ∷ (bytes "cshtml" ∷ [], bytes "*.cshtml" ∷ [])
    ∷ (bytes "csproj" ∷ [], bytes "*.csproj" ∷ [])
    ∷ (bytes "css" ∷ [], bytes "*.css" ∷ bytes "*.scss" ∷ [])
    ∷ (bytes "csv" ∷ [], bytes "*.csv" ∷ [])
    ∷ (bytes "cue" ∷ [], bytes "*.cue" ∷ [])
    ∷ (bytes "cuda" ∷ [], bytes "*.cu" ∷ bytes "*.cuh" ∷ [])
    ∷ (bytes "cython" ∷ [], bytes "*.pyx" ∷ bytes "*.pxi" ∷ bytes "*.pxd" ∷ [])
    ∷ (bytes "d" ∷ [], bytes "*.d" ∷ [])
    ∷ (bytes "dart" ∷ [], bytes "*.dart" ∷ [])
    ∷ (bytes "deno" ∷ [], bytes "deno.json" ∷ bytes "deno.jsonc" ∷ bytes "deno.lock" ∷ [])
    ∷ (bytes "devicetree" ∷ [], bytes "*.dts" ∷ bytes "*.dtsi" ∷ bytes "*.dtso" ∷ [])
    ∷ (bytes "dhall" ∷ [], bytes "*.dhall" ∷ [])
    ∷ (bytes "diff" ∷ [], bytes "*.patch" ∷ bytes "*.diff" ∷ [])
    ∷ (bytes "dita" ∷ [], bytes "*.dita" ∷ bytes "*.ditamap" ∷ bytes "*.ditaval" ∷ [])
    ∷ (bytes "docker" ∷ [], bytes "*Dockerfile*" ∷ [])
    ∷ (
      bytes "dockercompose" ∷ [],
      bytes "docker-compose.yml"
          ∷ bytes "docker-compose.*.yml"
          ∷ bytes "compose.yml"
          ∷ bytes "compose.yaml"
          ∷ bytes "compose.*.yml"
          ∷ bytes "compose.*.yaml"
          ∷ [],
    )
    ∷ (bytes "dotenv" ∷ [], bytes ".env" ∷ bytes ".env.*" ∷ bytes "*.env" ∷ [])
    ∷ (bytes "dts" ∷ [], bytes "*.dts" ∷ bytes "*.dtsi" ∷ [])
    ∷ (bytes "dvc" ∷ [], bytes "Dvcfile" ∷ bytes "*.dvc" ∷ [])
    ∷ (bytes "earthfile" ∷ [], bytes "Earthfile" ∷ [])
    ∷ (bytes "ebuild" ∷ [], bytes "*.ebuild" ∷ bytes "*.eclass" ∷ [])
    ∷ (bytes "edn" ∷ [], bytes "*.edn" ∷ [])
    ∷ (bytes "elisp" ∷ [], bytes "*.el" ∷ [])
    ∷ (
      bytes "elixir" ∷ [],
      bytes "*.ex"
          ∷ bytes "*.eex"
          ∷ bytes "*.exs"
          ∷ bytes "*.heex"
          ∷ bytes "*.leex"
          ∷ bytes "*.livemd"
          ∷ [],
    )
    ∷ (bytes "elm" ∷ [], bytes "*.elm" ∷ [])
    ∷ (bytes "erb" ∷ [], bytes "*.erb" ∷ [])
    ∷ (bytes "erlang" ∷ [], bytes "*.erl" ∷ bytes "*.hrl" ∷ [])
    ∷ (bytes "fennel" ∷ [], bytes "*.fnl" ∷ [])
    ∷ (bytes "fidl" ∷ [], bytes "*.fidl" ∷ [])
    ∷ (bytes "fish" ∷ [], bytes "*.fish" ∷ [])
    ∷ (bytes "flatbuffers" ∷ [], bytes "*.fbs" ∷ [])
    ∷ (
      bytes "fortran" ∷ [],
      bytes "*.f"
          ∷ bytes "*.F"
          ∷ bytes "*.f77"
          ∷ bytes "*.F77"
          ∷ bytes "*.pfo"
          ∷ bytes "*.f90"
          ∷ bytes "*.F90"
          ∷ bytes "*.f95"
          ∷ bytes "*.F95"
          ∷ [],
    )
    ∷ (bytes "fsharp" ∷ [], bytes "*.fs" ∷ bytes "*.fsx" ∷ bytes "*.fsi" ∷ [])
    ∷ (bytes "fut" ∷ [], bytes "*.fut" ∷ [])
    ∷ (
      bytes "gap" ∷ [],
      bytes "*.g" ∷ bytes "*.gap" ∷ bytes "*.gi" ∷ bytes "*.gd" ∷ bytes "*.tst" ∷ [],
    )
    ∷ (bytes "gdscript" ∷ [], bytes "*.gd" ∷ [])
    ∷ (
      bytes "github-actions" ∷ [],
      bytes ".github/actions/*.yml"
          ∷ bytes ".github/actions/*.yaml"
          ∷ bytes ".github/workflows/*.yml"
          ∷ bytes ".github/workflows/*.yaml"
          ∷ [],
    )
    ∷ (bytes "gitlab-ci" ∷ [], bytes ".gitlab-ci.yml" ∷ bytes ".gitlab-ci.yaml" ∷ [])
    ∷ (bytes "gleam" ∷ [], bytes "*.gleam" ∷ [])
    ∷ (bytes "gn" ∷ [], bytes "*.gn" ∷ bytes "*.gni" ∷ [])
    ∷ []
