-- ===== src/Xtask/Words.antt =====
-- The commands that `run` (xtask/src/run.rs) and `build_ebpf` (xtask/src/build_ebpf.rs) are to execute,
-- word by word.
use proxy_printer.Base.{
  ◌≡◌, refl, Bool, true, false, List, [], ◌∷◌, ◌++◌, none, some, Bool-cases, inl, inr,
}
use proxy_printer.Xtask.{
  Text, Architecture, bpf_el, bpf_eb, Command, RunOptions, ebpf_command, build_command, bin_path,
  args_of, split_terminator, trim_end, trim_start, display,
}

abbrev pub cargo_word : Text
cargo_word = b'c' ∷ b'a' ∷ b'r' ∷ b'g' ∷ b'o' ∷ []

abbrev pub build_word : Text
build_word = b'b' ∷ b'u' ∷ b'i' ∷ b'l' ∷ b'd' ∷ []

abbrev pub release_word : Text
release_word = b'-' ∷ b'-' ∷ b'r' ∷ b'e' ∷ b'l' ∷ b'e' ∷ b'a' ∷ b's' ∷ b'e' ∷ []

abbrev pub little_endian_word : Text
little_endian_word =
    b'-' ∷ b'-' ∷ b't' ∷ b'a' ∷ b'r' ∷ b'g' ∷ b'e' ∷ b't' ∷ b'=' ∷ b'b' ∷ b'p' ∷ b'f' ∷ b'e' ∷ b'l'
    ∷ b'-' ∷ b'u' ∷ b'n' ∷ b'k' ∷ b'n' ∷ b'o' ∷ b'w' ∷ b'n' ∷ b'-' ∷ b'n' ∷ b'o' ∷ b'n' ∷ b'e' ∷ []

abbrev pub big_endian_word : Text
big_endian_word =
    b'-' ∷ b'-' ∷ b't' ∷ b'a' ∷ b'r' ∷ b'g' ∷ b'e' ∷ b't' ∷ b'=' ∷ b'b' ∷ b'p' ∷ b'f' ∷ b'e' ∷ b'b'
    ∷ b'-' ∷ b'u' ∷ b'n' ∷ b'k' ∷ b'n' ∷ b'o' ∷ b'w' ∷ b'n' ∷ b'-' ∷ b'n' ∷ b'o' ∷ b'n' ∷ b'e' ∷ []

abbrev pub unstable_word : Text
unstable_word = b'-' ∷ b'Z' ∷ []

abbrev pub build_core_word : Text
build_core_word =
    b'b' ∷ b'u' ∷ b'i' ∷ b'l' ∷ b'd' ∷ b'-' ∷ b's' ∷ b't' ∷ b'd' ∷ b'=' ∷ b'c' ∷ b'o' ∷ b'r' ∷ b'e'
    ∷ []

abbrev pub kernel_crate_word : Text
kernel_crate_word =
    b'.' ∷ b'/' ∷ b's' ∷ b'p' ∷ b'l' ∷ b'i' ∷ b'c' ∷ b'e' ∷ b'-' ∷ b'e' ∷ b'b' ∷ b'p' ∷ b'f' ∷ []

abbrev pub toolchain_word : Text
toolchain_word =
    b'R' ∷ b'U' ∷ b'S' ∷ b'T' ∷ b'U' ∷ b'P' ∷ b'_' ∷ b'T' ∷ b'O' ∷ b'O' ∷ b'L' ∷ b'C' ∷ b'H' ∷ b'A'
    ∷ b'I' ∷ b'N' ∷ []

abbrev pub release_binary_word : Text
release_binary_word =
    b't' ∷ b'a' ∷ b'r' ∷ b'g' ∷ b'e' ∷ b't' ∷ b'/' ∷ b'r' ∷ b'e' ∷ b'l' ∷ b'e' ∷ b'a' ∷ b's' ∷ b'e'
    ∷ b'/' ∷ b't' ∷ b'u' ∷ b'r' ∷ b'b' ∷ b'i' ∷ b'n' ∷ b'e' ∷ b'-' ∷ b'l' ∷ b'b' ∷ []

abbrev pub debug_binary_word : Text
debug_binary_word =
    b't' ∷ b'a' ∷ b'r' ∷ b'g' ∷ b'e' ∷ b't' ∷ b'/' ∷ b'd' ∷ b'e' ∷ b'b' ∷ b'u' ∷ b'g' ∷ b'/' ∷ b't'
    ∷ b'u' ∷ b'r' ∷ b'b' ∷ b'i' ∷ b'n' ∷ b'e' ∷ b'-' ∷ b'l' ∷ b'b' ∷ []

abbrev pub target : Architecture → Text
target bpf_el = little_endian_word
target bpf_eb = big_endian_word

-- `cargo build --target=.. -Z build-std=core`, in the directory of the kernel program and without the
-- toolchain of the caller, with `--release` at the end for a release.
abbrev pub kernel_build : Architecture → Bool → Command
kernel_build a true = record {
  program = cargo_word;
  args = build_word ∷ target a ∷ unstable_word ∷ build_core_word ∷ release_word ∷ [];
  current_dir = some kernel_crate_word;
  env_remove = toolchain_word ∷ [];
}
kernel_build a false = record {
  program = cargo_word;
  args = build_word ∷ target a ∷ unstable_word ∷ build_core_word ∷ [];
  current_dir = some kernel_crate_word;
  env_remove = toolchain_word ∷ [];
}

-- `cargo build`, with `--release` for a release.
abbrev pub turbine_build : Bool → Command
turbine_build true = record {
  program = cargo_word;
  args = build_word ∷ release_word ∷ [];
  current_dir = none;
  env_remove = [];
}
turbine_build false = record {
  program = cargo_word;
  args = build_word ∷ [];
  current_dir = none;
  env_remove = [];
}

abbrev pub binary : Bool → Text
binary true = release_binary_word
binary false = debug_binary_word

-- The words of the runner, those of the trimmed text between its spaces; then the binary, and all the
-- arguments given.
abbrev pub words : RunOptions → List Text
words opts =
    split_terminator (trim_end (trim_start opts.runner)) ++ binary opts.release ∷ opts.run_args

pub ebpf_command-kernel_build :
    (a : Architecture) (release : Bool)
    → ebpf_command (record { target = a; release = release }) ≡ kernel_build a release
unfolding display
ebpf_command-kernel_build bpf_el true = refl
ebpf_command-kernel_build bpf_el false = refl
ebpf_command-kernel_build bpf_eb true = refl
ebpf_command-kernel_build bpf_eb false = refl

pub build_command-turbine_build :
    (opts : RunOptions) → build_command opts ≡ turbine_build opts.release
build_command-turbine_build opts = elim (Bool-cases opts.release) [
  | inl e ↦ rw e refl
  | inr e ↦ rw e refl
]

pub bin_path-binary : (opts : RunOptions) → bin_path opts ≡ binary opts.release
bin_path-binary opts = elim (Bool-cases opts.release) [ inl e ↦ rw e refl | inr e ↦ rw e refl ]

pub args_of-words : (opts : RunOptions) → args_of opts ≡ words opts
unfolding args_of
args_of-words opts = rw (bin_path-binary opts) refl
