-- ===== src/FileTypes/Defaults/Back.antt =====
-- The back part of the table of default types (src/default_file_types.rs).
use weavatrix_scan.Common.{List, [], ◌∷◌}
use weavatrix_scan.Text.{Bytes, bytes}

abbrev pub default_types_back : List (List Bytes × List Bytes)
default_types_back =
    (bytes "purs" ∷ [], bytes "*.purs" ∷ [])
    ∷ (bytes "py" ∷ bytes "python" ∷ [], bytes "*.py" ∷ bytes "*.pyi" ∷ bytes "*.pyw" ∷ [])
    ∷ (bytes "qmake" ∷ [], bytes "*.pro" ∷ bytes "*.pri" ∷ bytes "*.prf" ∷ [])
    ∷ (bytes "qml" ∷ [], bytes "*.qml" ∷ [])
    ∷ (bytes "qrc" ∷ [], bytes "*.qrc" ∷ [])
    ∷ (bytes "qui" ∷ [], bytes "*.ui" ∷ [])
    ∷ (
      bytes "r" ∷ [],
      bytes "*.R"
          ∷ bytes "*.r"
          ∷ bytes "*.Rmd"
          ∷ bytes "*.rmd"
          ∷ bytes "*.Rnw"
          ∷ bytes "*.rnw"
          ∷ [],
    )
    ∷ (bytes "racket" ∷ [], bytes "*.rkt" ∷ [])
    ∷ (
      bytes "raku" ∷ [],
      bytes "*.raku"
          ∷ bytes "*.rakumod"
          ∷ bytes "*.rakudoc"
          ∷ bytes "*.rakutest"
          ∷ bytes "*.p6"
          ∷ bytes "*.pl6"
          ∷ bytes "*.pm6"
          ∷ [],
    )
    ∷ (bytes "rdoc" ∷ [], bytes "*.rdoc" ∷ [])
    ∷ (bytes "readme" ∷ [], bytes "README*" ∷ bytes "*README" ∷ [])
    ∷ (bytes "reasonml" ∷ [], bytes "*.re" ∷ bytes "*.rei" ∷ [])
    ∷ (bytes "red" ∷ [], bytes "*.r" ∷ bytes "*.red" ∷ bytes "*.reds" ∷ [])
    ∷ (bytes "rego" ∷ [], bytes "*.rego" ∷ [])
    ∷ (bytes "rescript" ∷ [], bytes "*.res" ∷ bytes "*.resi" ∷ [])
    ∷ (bytes "robot" ∷ [], bytes "*.robot" ∷ [])
    ∷ (bytes "rocq" ∷ [], bytes "*.v" ∷ [])
    ∷ (bytes "ron" ∷ [], bytes "*.ron" ∷ [])
    ∷ (bytes "rst" ∷ [], bytes "*.rst" ∷ [])
    ∷ (
      bytes "ruby" ∷ [],
      bytes "config.ru"
          ∷ bytes "Gemfile"
          ∷ bytes ".irbrc"
          ∷ bytes "Rakefile"
          ∷ bytes "*.gemspec"
          ∷ bytes "*.rb"
          ∷ bytes "*.rbw"
          ∷ bytes "*.rake"
          ∷ [],
    )
    ∷ (bytes "rust" ∷ bytes "rs" ∷ [], bytes "*.rs" ∷ [])
    ∷ (bytes "sass" ∷ [], bytes "*.sass" ∷ bytes "*.scss" ∷ [])
    ∷ (bytes "scala" ∷ [], bytes "*.scala" ∷ bytes "*.sbt" ∷ [])
    ∷ (bytes "scdoc" ∷ [], bytes "*.scd" ∷ bytes "*.scdoc" ∷ [])
    ∷ (bytes "seed7" ∷ [], bytes "*.sd7" ∷ bytes "*.s7i" ∷ [])
    ∷ (
      bytes "sh" ∷ bytes "shell" ∷ [],
      bytes ".env"
          ∷ bytes ".login"
          ∷ bytes ".logout"
          ∷ bytes ".profile"
          ∷ bytes "profile"
          ∷ bytes ".bash_login"
          ∷ bytes "bash_login"
          ∷ bytes ".bash_logout"
          ∷ bytes "bash_logout"
          ∷ bytes ".bash_profile"
          ∷ bytes "bash_profile"
          ∷ bytes ".bashrc"
          ∷ bytes "bashrc"
          ∷ bytes "*.bashrc"
          ∷ bytes ".cshrc"
          ∷ bytes "*.cshrc"
          ∷ bytes ".kshrc"
          ∷ bytes "*.kshrc"
          ∷ bytes ".tcshrc"
          ∷ bytes ".zshenv"
          ∷ bytes "zshenv"
          ∷ bytes ".zlogin"
          ∷ bytes "zlogin"
          ∷ bytes ".zlogout"
          ∷ bytes "zlogout"
          ∷ bytes ".zprofile"
          ∷ bytes "zprofile"
          ∷ bytes ".zshrc"
          ∷ bytes "zshrc"
          ∷ bytes "*.bash"
          ∷ bytes "*.csh"
          ∷ bytes "*.env"
          ∷ bytes "*.ksh"
          ∷ bytes "*.sh"
          ∷ bytes "*.tcsh"
          ∷ bytes "*.zsh"
          ∷ [],
    )
    ∷ (bytes "slim" ∷ [], bytes "*.skim" ∷ bytes "*.slim" ∷ bytes "*.slime" ∷ [])
    ∷ (bytes "slint" ∷ [], bytes "*.slint" ∷ [])
    ∷ (bytes "smarty" ∷ [], bytes "*.tpl" ∷ [])
    ∷ (bytes "sml" ∷ [], bytes "*.sml" ∷ bytes "*.sig" ∷ [])
    ∷ (bytes "smithy" ∷ [], bytes "*.smithy" ∷ [])
    ∷ (bytes "solidity" ∷ [], bytes "*.sol" ∷ [])
    ∷ (bytes "soy" ∷ [], bytes "*.soy" ∷ [])
    ∷ (bytes "spark" ∷ [], bytes "*.spark" ∷ [])
    ∷ (bytes "spec" ∷ [], bytes "*.spec" ∷ [])
    ∷ (bytes "sql" ∷ [], bytes "*.sql" ∷ bytes "*.psql" ∷ bytes "*.ddl" ∷ bytes "*.dml" ∷ [])
    ∷ (bytes "ssa" ∷ [], bytes "*.ssa" ∷ [])
    ∷ (bytes "stylus" ∷ [], bytes "*.styl" ∷ [])
    ∷ (
      bytes "sv" ∷ [],
      bytes "*.v" ∷ bytes "*.vg" ∷ bytes "*.sv" ∷ bytes "*.svh" ∷ bytes "*.h" ∷ [],
    )
    ∷ (bytes "svelte" ∷ [], bytes "*.svelte" ∷ bytes "*.svelte.ts" ∷ [])
    ∷ (bytes "svg" ∷ [], bytes "*.svg" ∷ [])
    ∷ (bytes "swift" ∷ [], bytes "*.swift" ∷ [])
    ∷ (bytes "swig" ∷ [], bytes "*.def" ∷ bytes "*.i" ∷ [])
    ∷ (
      bytes "systemd" ∷ [],
      bytes "*.automount"
          ∷ bytes "*.conf"
          ∷ bytes "*.device"
          ∷ bytes "*.link"
          ∷ bytes "*.mount"
          ∷ bytes "*.path"
          ∷ bytes "*.scope"
          ∷ bytes "*.service"
          ∷ bytes "*.slice"
          ∷ bytes "*.socket"
          ∷ bytes "*.swap"
          ∷ bytes "*.target"
          ∷ bytes "*.timer"
          ∷ [],
    )
    ∷ (bytes "taskpaper" ∷ [], bytes "*.taskpaper" ∷ [])
    ∷ (bytes "tcl" ∷ [], bytes "*.tcl" ∷ [])
    ∷ (bytes "templ" ∷ [], bytes "*.templ" ∷ [])
    ∷ (
      bytes "terraform" ∷ bytes "tf" ∷ [],
      bytes "*.tf"
          ∷ bytes "*.tf.json"
          ∷ bytes "*.tfvars"
          ∷ bytes "*.tfvars.json"
          ∷ bytes "*.terraformrc"
          ∷ bytes "terraform.rc"
          ∷ bytes "*.tfrc"
          ∷ bytes "*.terraform.lock.hcl"
          ∷ [],
    )
    ∷ (
      bytes "tex" ∷ [],
      bytes "*.tex"
          ∷ bytes "*.ltx"
          ∷ bytes "*.cls"
          ∷ bytes "*.sty"
          ∷ bytes "*.bib"
          ∷ bytes "*.dtx"
          ∷ bytes "*.ins"
          ∷ [],
    )
    ∷ (bytes "texinfo" ∷ [], bytes "*.texi" ∷ [])
    ∷ (bytes "textile" ∷ [], bytes "*.textile" ∷ [])
    ∷ (bytes "thrift" ∷ [], bytes "*.thrift" ∷ [])
    ∷ (bytes "tilt" ∷ [], bytes "Tiltfile" ∷ [])
    ∷ (bytes "toml" ∷ [], bytes "*.toml" ∷ bytes "Cargo.lock" ∷ [])
    ∷ (
      bytes "ts" ∷ bytes "typescript" ∷ [],
      bytes "*.ts" ∷ bytes "*.tsx" ∷ bytes "*.cts" ∷ bytes "*.mts" ∷ [],
    )
    ∷ (bytes "twig" ∷ [], bytes "*.twig" ∷ [])
    ∷ (bytes "txt" ∷ [], bytes "*.txt" ∷ [])
    ∷ (bytes "typoscript" ∷ [], bytes "*.typoscript" ∷ bytes "*.ts" ∷ [])
    ∷ (bytes "typst" ∷ [], bytes "*.typ" ∷ [])
    ∷ (bytes "usd" ∷ [], bytes "*.usd" ∷ bytes "*.usda" ∷ bytes "*.usdc" ∷ [])
    ∷ (bytes "v" ∷ [], bytes "*.v" ∷ bytes "*.vsh" ∷ [])
    ∷ (bytes "vala" ∷ [], bytes "*.vala" ∷ [])
    ∷ (bytes "vb" ∷ [], bytes "*.vb" ∷ [])
    ∷ (bytes "vcl" ∷ [], bytes "*.vcl" ∷ [])
    ∷ (bytes "verilog" ∷ [], bytes "*.v" ∷ bytes "*.vh" ∷ bytes "*.sv" ∷ bytes "*.svh" ∷ [])
    ∷ (bytes "vhdl" ∷ [], bytes "*.vhd" ∷ bytes "*.vhdl" ∷ [])
    ∷ (
      bytes "vim" ∷ [],
      bytes "*.vim"
          ∷ bytes ".vimrc"
          ∷ bytes ".gvimrc"
          ∷ bytes "vimrc"
          ∷ bytes "gvimrc"
          ∷ bytes "_vimrc"
          ∷ bytes "_gvimrc"
          ∷ [],
    )
    ∷ (
      bytes "vimscript" ∷ [],
      bytes "*.vim"
          ∷ bytes ".vimrc"
          ∷ bytes ".gvimrc"
          ∷ bytes "vimrc"
          ∷ bytes "gvimrc"
          ∷ bytes "_vimrc"
          ∷ bytes "_gvimrc"
          ∷ [],
    )
    ∷ (bytes "vue" ∷ [], bytes "*.vue" ∷ [])
    ∷ (bytes "wasm-text" ∷ [], bytes "*.wat" ∷ bytes "*.wast" ∷ [])
    ∷ (bytes "webidl" ∷ [], bytes "*.idl" ∷ bytes "*.webidl" ∷ bytes "*.widl" ∷ [])
    ∷ (bytes "wgsl" ∷ [], bytes "*.wgsl" ∷ [])
    ∷ (bytes "wiki" ∷ [], bytes "*.mediawiki" ∷ bytes "*.wiki" ∷ [])
    ∷ (bytes "wit" ∷ [], bytes "*.wit" ∷ [])
    ∷ (
      bytes "xml" ∷ [],
      bytes "*.xml"
          ∷ bytes "*.xml.dist"
          ∷ bytes "*.dtd"
          ∷ bytes "*.xsl"
          ∷ bytes "*.xslt"
          ∷ bytes "*.xsd"
          ∷ bytes "*.xjb"
          ∷ bytes "*.rng"
          ∷ bytes "*.sch"
          ∷ bytes "*.xhtml"
          ∷ [],
    )
    ∷ (bytes "xonsh" ∷ [], bytes "*.xsh" ∷ [])
    ∷ (bytes "xz" ∷ [], bytes "*.xz" ∷ bytes "*.txz" ∷ [])
    ∷ (bytes "yacc" ∷ [], bytes "*.y" ∷ [])
    ∷ (bytes "yaml" ∷ bytes "yml" ∷ [], bytes "*.yaml" ∷ bytes "*.yml" ∷ [])
    ∷ (bytes "yang" ∷ [], bytes "*.yang" ∷ [])
    ∷ (bytes "z" ∷ [], bytes "*.Z" ∷ [])
    ∷ (bytes "zig" ∷ [], bytes "*.zig" ∷ bytes "*.zon" ∷ [])
    ∷ (
      bytes "zsh" ∷ [],
      bytes ".zshenv"
          ∷ bytes "zshenv"
          ∷ bytes ".zlogin"
          ∷ bytes "zlogin"
          ∷ bytes ".zlogout"
          ∷ bytes "zlogout"
          ∷ bytes ".zprofile"
          ∷ bytes "zprofile"
          ∷ bytes ".zshrc"
          ∷ bytes "zshrc"
          ∷ bytes "*.zsh"
          ∷ [],
    )
    ∷ (bytes "zstd" ∷ [], bytes "*.zst" ∷ bytes "*.zstd" ∷ [])
    ∷ []
