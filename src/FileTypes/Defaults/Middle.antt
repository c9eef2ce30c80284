-- ===== src/FileTypes/Defaults/Middle.antt =====
-- The middle part of the table of default types (src/default_file_types.rs).
use weavatrix_scan.Common.{List, [], ◌∷◌, ◌++◌}
use weavatrix_scan.Text.{Bytes, bytes}

abbrev pub default_types_middle : List (List Bytes × List Bytes)
default_types_middle =
    (bytes "go" ∷ [], bytes "*.go" ∷ [])
    ∷ (bytes "gprbuild" ∷ [], bytes "*.gpr" ∷ [])
    ∷ (
      bytes "gradle" ∷ [],
      bytes "*.gradle"
          ∷ bytes "*.gradle.kts"
          ∷ bytes "gradle.properties"
          ∷ bytes "gradle-wrapper.*"
          ∷ bytes "gradlew"
          ∷ bytes "gradlew.bat"
          ∷ [],
    )
    ∷ (bytes "graphql" ∷ [], bytes "*.graphql" ∷ bytes "*.graphqls" ∷ [])
    ∷ (bytes "groovy" ∷ [], bytes "*.groovy" ∷ bytes "*.gradle" ∷ [])
    ∷ (bytes "gzip" ∷ [], bytes "*.gz" ∷ bytes "*.tgz" ∷ [])
    ∷ (bytes "h" ∷ [], bytes "*.h" ∷ bytes "*.hh" ∷ bytes "*.hpp" ∷ [])
    ∷ (bytes "haml" ∷ [], bytes "*.haml" ∷ [])
    ∷ (bytes "hare" ∷ [], bytes "*.ha" ∷ [])
    ∷ (
      bytes "haskell" ∷ [],
      bytes "*.hs" ∷ bytes "*.lhs" ∷ bytes "*.cpphs" ∷ bytes "*.c2hs" ∷ bytes "*.hsc" ∷ [],
    )
    ∷ (bytes "hbs" ∷ [], bytes "*.hbs" ∷ [])
    ∷ (
      bytes "helm" ∷ [],
      bytes "Chart.yaml"
          ∷ bytes "Chart.yml"
          ∷ bytes "values.yaml"
          ∷ bytes "values.yml"
          ∷ bytes "values.*.yaml"
          ∷ bytes "values.*.yml"
          ∷ [],
    )
    ∷ (bytes "hjson" ∷ [], bytes "*.hjson" ∷ [])
    ∷ (bytes "hs" ∷ [], bytes "*.hs" ∷ bytes "*.lhs" ∷ [])
    ∷ (bytes "html" ∷ [], bytes "*.htm" ∷ bytes "*.html" ∷ bytes "*.ejs" ∷ [])
    ∷ (bytes "hurl" ∷ [], bytes "*.hurl" ∷ [])
    ∷ (bytes "hy" ∷ [], bytes "*.hy" ∷ [])
    ∷ (bytes "idris" ∷ [], bytes "*.idr" ∷ bytes "*.lidr" ∷ [])
    ∷ (bytes "janet" ∷ [], bytes "*.janet" ∷ [])
    ∷ (
      bytes "java" ∷ [],
      bytes "*.java" ∷ bytes "*.jsp" ∷ bytes "*.jspx" ∷ bytes "*.properties" ∷ [],
    )
    ∷ (
      bytes "javascript" ∷ bytes "js" ∷ [],
      bytes "*.js" ∷ bytes "*.jsx" ∷ bytes "*.vue" ∷ bytes "*.cjs" ∷ bytes "*.mjs" ∷ [],
    )
    ∷ (bytes "jinja" ∷ [], bytes "*.j2" ∷ bytes "*.jinja" ∷ bytes "*.jinja2" ∷ [])
    ∷ (bytes "jl" ∷ [], bytes "*.jl" ∷ [])
    ∷ (bytes "json" ∷ [], bytes "*.json" ∷ bytes "composer.lock" ∷ bytes "*.sarif" ∷ [])
    ∷ (bytes "json5" ∷ [], bytes "*.json5" ∷ [])
    ∷ (bytes "jsonc" ∷ [], bytes "*.jsonc" ∷ [])
    ∷ (bytes "jsonl" ∷ [], bytes "*.jsonl" ∷ bytes "*.ndjson" ∷ [])
    ∷ (bytes "julia" ∷ [], bytes "*.jl" ∷ [])
    ∷ (bytes "jupyter" ∷ [], bytes "*.ipynb" ∷ bytes "*.jpynb" ∷ [])
    ∷ (bytes "just" ∷ [], bytes "Justfile" ∷ bytes "justfile" ∷ bytes "*.just" ∷ [])
    ∷ (bytes "k" ∷ [], bytes "*.k" ∷ [])
    ∷ (bytes "kconfig" ∷ [], bytes "Kconfig" ∷ bytes "Kconfig.*" ∷ [])
    ∷ (bytes "kdl" ∷ [], bytes "*.kdl" ∷ [])
    ∷ (bytes "kotlin" ∷ [], bytes "*.kt" ∷ bytes "*.kts" ∷ [])
    ∷ (
      bytes "kustomize" ∷ [],
      bytes "kustomization.yaml" ∷ bytes "kustomization.yml" ∷ bytes "Kustomization" ∷ [],
    )
    ∷ (bytes "lean" ∷ [], bytes "*.lean" ∷ [])
    ∷ (bytes "less" ∷ [], bytes "*.less" ∷ [])
    ∷ (
      bytes "license" ∷ [],
      bytes "COPYING"
          ∷ bytes "COPYING[.-]*"
          ∷ bytes "COPYRIGHT"
          ∷ bytes "COPYRIGHT[.-]*"
          ∷ bytes "EULA"
          ∷ bytes "EULA[.-]*"
          ∷ bytes "licen[cs]e"
          ∷ bytes "licen[cs]e.*"
          ∷ bytes "LICEN[CS]E"
          ∷ bytes "LICEN[CS]E[.-]*"
          ∷ bytes "*[.-]LICEN[CS]E*"
          ∷ bytes "NOTICE"
          ∷ bytes "NOTICE[.-]*"
          ∷ bytes "PATENTS"
          ∷ bytes "PATENTS[.-]*"
          ∷ bytes "UNLICEN[CS]E"
          ∷ bytes "UNLICEN[CS]E[.-]*"
          ∷ bytes "agpl[.-]*"
          ∷ bytes "gpl[.-]*"
          ∷ bytes "lgpl[.-]*"
          ∷ bytes "AGPL-*[0-9]*"
          ∷ bytes "APACHE-*[0-9]*"
          ∷ bytes "BSD-*[0-9]*"
          ∷ bytes "CC-BY-*"
          ∷ bytes "GFDL-*[0-9]*"
          ∷ bytes "GNU-*[0-9]*"
          ∷ bytes "GPL-*[0-9]*"
          ∷ bytes "LGPL-*[0-9]*"
          ∷ bytes "MIT-*[0-9]*"
          ∷ bytes "MPL-*[0-9]*"
          ∷ bytes "OFL-*[0-9]*"
          ∷ [],
    )
    ∷ (bytes "lilypond" ∷ [], bytes "*.ly" ∷ bytes "*.ily" ∷ [])
    ∷ (
      bytes "lisp" ∷ [],
      bytes "*.el"
          ∷ bytes "*.jl"
          ∷ bytes "*.lisp"
          ∷ bytes "*.lsp"
          ∷ bytes "*.sc"
          ∷ bytes "*.scm"
          ∷ [],
    )
    ∷ (bytes "llvm" ∷ [], bytes "*.ll" ∷ [])
    ∷ (
      bytes "lock" ∷ [],
      bytes "*.lock"
          ∷ bytes "package-lock.json"
          ∷ bytes "bun.lock"
          ∷ bytes "bun.lockb"
          ∷ bytes "pnpm-lock.yaml"
          ∷ bytes "yarn.lock"
          ∷ bytes "uv.lock"
          ∷ bytes "Pipfile.lock"
          ∷ bytes "poetry.lock"
          ∷ [],
    )
    ∷ (bytes "log" ∷ [], bytes "*.log" ∷ [])
    ∷ (bytes "lua" ∷ [], bytes "*.lua" ∷ [])
    ∷ (bytes "lz4" ∷ [], bytes "*.lz4" ∷ [])
    ∷ (bytes "lzma" ∷ [], bytes "*.lzma" ∷ [])
    ∷ (bytes "m4" ∷ [], bytes "*.ac" ∷ bytes "*.m4" ∷ [])
    ∷ (
      bytes "make" ∷ [],
      bytes "[Gg][Nn][Uu]makefile"
          ∷ bytes "[Mm]akefile"
          ∷ bytes "[Gg][Nn][Uu]makefile.am"
          ∷ bytes "[Mm]akefile.am"
          ∷ bytes "[Gg][Nn][Uu]makefile.in"
          ∷ bytes "[Mm]akefile.in"
          ∷ bytes "Makefile.*"
          ∷ bytes "*.mk"
          ∷ bytes "*.mak"
          ∷ [],
    )
    ∷ (bytes "mako" ∷ [], bytes "*.mako" ∷ bytes "*.mao" ∷ [])
    ∷ (bytes "man" ∷ [], bytes "*.[0-9lnpx]" ∷ bytes "*.[0-9][cEFMmpSx]" ∷ [])
    ∷ (
      bytes "markdown" ∷ bytes "md" ∷ [],
      bytes "*.markdown"
          ∷ bytes "*.md"
          ∷ bytes "*.mdown"
          ∷ bytes "*.mdwn"
          ∷ bytes "*.mkd"
          ∷ bytes "*.mkdn"
          ∷ bytes "*.mdx"
          ∷ [],
    )
    ∷ (bytes "matlab" ∷ [], bytes "*.m" ∷ [])
    ∷ (
      bytes "meson" ∷ [],
      bytes "meson.build" ∷ bytes "meson_options.txt" ∷ bytes "meson.options" ∷ [],
    )
    ∷ (bytes "minified" ∷ [], bytes "*.min.html" ∷ bytes "*.min.css" ∷ bytes "*.min.js" ∷ [])
    ∷ (bytes "mint" ∷ [], bytes "*.mint" ∷ [])
    ∷ (bytes "mk" ∷ [], bytes "mkfile" ∷ [])
    ∷ (bytes "ml" ∷ [], bytes "*.ml" ∷ [])
    ∷ (bytes "mojo" ∷ [], bytes "*.mojo" ∷ (bytes "*." ++ 0xf0 ∷ 0x9f ∷ 0x94 ∷ 0xa5 ∷ []) ∷ [])
    ∷ (bytes "motoko" ∷ [], bytes "*.mo" ∷ [])
    ∷ (
      bytes "msbuild" ∷ [],
      bytes "*.csproj"
          ∷ bytes "*.fsproj"
          ∷ bytes "*.vcxproj"
          ∷ bytes "*.proj"
          ∷ bytes "*.props"
          ∷ bytes "*.targets"
          ∷ bytes "*.sln"
          ∷ bytes "*.slnf"
          ∷ bytes "*.slnx"
          ∷ [],
    )
    ∷ (bytes "nickel" ∷ [], bytes "*.ncl" ∷ [])
    ∷ (bytes "nim" ∷ [], bytes "*.nim" ∷ bytes "*.nimf" ∷ bytes "*.nimble" ∷ bytes "*.nims" ∷ [])
    ∷ (bytes "nix" ∷ [], bytes "*.nix" ∷ [])
    ∷ (bytes "nushell" ∷ [], bytes "*.nu" ∷ [])
    ∷ (bytes "objc" ∷ [], bytes "*.h" ∷ bytes "*.m" ∷ [])
    ∷ (bytes "objcpp" ∷ [], bytes "*.h" ∷ bytes "*.mm" ∷ [])
    ∷ (bytes "ocaml" ∷ [], bytes "*.ml" ∷ bytes "*.mli" ∷ bytes "*.mll" ∷ bytes "*.mly" ∷ [])
    ∷ (
      bytes "openapi" ∷ [],
      bytes "openapi*.json"
          ∷ bytes "openapi*.yaml"
          ∷ bytes "openapi*.yml"
          ∷ bytes "swagger*.json"
          ∷ bytes "swagger*.yaml"
          ∷ bytes "swagger*.yml"
          ∷ [],
    )
    ∷ (bytes "org" ∷ [], bytes "*.org" ∷ bytes "*.org_archive" ∷ [])
    ∷ (bytes "pants" ∷ [], bytes "BUILD" ∷ [])
    ∷ (
      bytes "pascal" ∷ [],
      bytes "*.pas" ∷ bytes "*.dpr" ∷ bytes "*.lpr" ∷ bytes "*.pp" ∷ bytes "*.inc" ∷ [],
    )
    ∷ (bytes "pdf" ∷ [], bytes "*.pdf" ∷ [])
    ∷ (
      bytes "perl" ∷ [],
      bytes "*.perl"
          ∷ bytes "*.pl"
          ∷ bytes "*.PL"
          ∷ bytes "*.plh"
          ∷ bytes "*.plx"
          ∷ bytes "*.pm"
          ∷ bytes "*.t"
          ∷ [],
    )
    ∷ (
      bytes "php" ∷ [],
      bytes "*.php"
          ∷ bytes "*.php3"
          ∷ bytes "*.php4"
          ∷ bytes "*.php5"
          ∷ bytes "*.php7"
          ∷ bytes "*.php8"
          ∷ bytes "*.pht"
          ∷ bytes "*.phtml"
          ∷ [],
    )
    ∷ (bytes "pkgbuild" ∷ [], bytes "PKGBUILD" ∷ [])
    ∷ (bytes "pkl" ∷ [], bytes "*.pkl" ∷ [])
    ∷ (bytes "po" ∷ [], bytes "*.po" ∷ [])
    ∷ (bytes "pod" ∷ [], bytes "*.pod" ∷ [])
    ∷ (bytes "postscript" ∷ [], bytes "*.eps" ∷ bytes "*.ps" ∷ [])
    ∷ (
      bytes "powershell" ∷ bytes "ps" ∷ [],
      bytes "*.cdxml" ∷ bytes "*.ps1" ∷ bytes "*.ps1xml" ∷ bytes "*.psd1" ∷ bytes "*.psm1" ∷ [],
    )
    ∷ (bytes "prisma" ∷ [], bytes "*.prisma" ∷ [])
    ∷ (bytes "prolog" ∷ [], bytes "*.pl" ∷ bytes "*.pro" ∷ bytes "*.prolog" ∷ bytes "*.P" ∷ [])
    ∷ (bytes "proto" ∷ bytes "protobuf" ∷ [], bytes "*.proto" ∷ [])
    ∷ (bytes "puppet" ∷ [], bytes "*.epp" ∷ bytes "*.erb" ∷ bytes "*.pp" ∷ bytes "*.rb" ∷ [])
    ∷ []
