-- ===== src/Xtask.antt =====
-- xtask/src: the commands that build the kernel program and turbine, and run it. Text is its code points.
pub mod Words
pub mod Runs
mod Tests
use proxy_printer.Base.{
  ℕ, Bool, true, false, ◌&&◌, ◌||◌, List, [], ◌∷◌, ◌++◌, Option, none, some, ◌==◌, leb,
  if◌then◌else◌, bytes_eq,
}

abbrev pub Text : Type 0
Text = List ℕ

pub data Architecture : Type 0 where
  bpf_el bpf_eb : Architecture

abbrev pub bpfel_unknown_none : Text
bpfel_unknown_none =
    b'b' ∷ b'p' ∷ b'f' ∷ b'e' ∷ b'l' ∷ b'-' ∷ b'u' ∷ b'n' ∷ b'k' ∷ b'n' ∷ b'o' ∷ b'w' ∷ b'n' ∷ b'-'
    ∷ b'n' ∷ b'o' ∷ b'n' ∷ b'e' ∷ []

abbrev pub bpfeb_unknown_none : Text
bpfeb_unknown_none =
    b'b' ∷ b'p' ∷ b'f' ∷ b'e' ∷ b'b' ∷ b'-' ∷ b'u' ∷ b'n' ∷ b'k' ∷ b'n' ∷ b'o' ∷ b'w' ∷ b'n' ∷ b'-'
    ∷ b'n' ∷ b'o' ∷ b'n' ∷ b'e' ∷ []

-- `FromStr` and `Display`.
unfoldable pub from_str : Text → Option Architecture
from_str s =
    if bytes_eq s bpfel_unknown_none
    then some bpf_el
    else if bytes_eq s bpfeb_unknown_none
    then some bpf_eb
    else none

unfoldable pub display : Architecture → Text
display bpf_el = bpfel_unknown_none
display bpf_eb = bpfeb_unknown_none

-- `char::is_whitespace`.
abbrev pub is_whitespace : ℕ → Bool
is_whitespace c =
    (leb 9 c && leb c 13)
    || (c == 32)
    || (c == 133)
    || (c == 160)
    || (c == 5760)
    || (leb 8192 c && leb c 8202)
    || (c == 8232)
    || (c == 8233)
    || (c == 8239)
    || (c == 8287)
    || (c == 12288)

-- `str::trim`.
pub trim_start : Text → Text
trim_start [] = []
trim_start (c ∷ cs) = let rest = trim_start cs in if is_whitespace c then rest else c ∷ cs

-- A whitespace goes where nothing is left behind it.
abbrev trim_last : ℕ → Text → Text
trim_last c [] = if is_whitespace c then [] else c ∷ []
trim_last c (d ∷ ds) = c ∷ d ∷ ds

pub trim_end : Text → Text
trim_end [] = []
trim_end (c ∷ cs) = trim_last c (trim_end cs)

-- One more character at the front: a space begins a new part.
abbrev put_front : ℕ → Text × List Text → Text × List Text
put_front c (part, parts) = if c == 32 then ([], part ∷ parts) else (c ∷ part, parts)

-- `split(' ')`: the first part and those behind it.
pub split_space : Text → Text × List Text
split_space [] = ([], [])
split_space (c ∷ cs) = put_front c (split_space cs)

-- `split_terminator(' ')`: an empty part at the end is left out.
pub drop_empty_last : List Text → List Text
drop_empty_last [] = []
drop_empty_last ([] ∷ []) = []
drop_empty_last ((c ∷ cs) ∷ []) = (c ∷ cs) ∷ []
drop_empty_last (p ∷ q ∷ rest) = p ∷ drop_empty_last (q ∷ rest)

unfoldable pub split_terminator : Text → List Text
split_terminator s = let (part, parts) = split_space s in drop_empty_last (part ∷ parts)

-- `std::process::Command`, as far as it is set.
pub record Command : Type 0 where
  pub program : Text
  pub args : List Text
  pub current_dir : Option Text
  pub env_remove : List Text

-- `build_ebpf::Options` and `run::Options`.
pub record BuildOptions : Type 0 where
  pub target : Architecture
  pub release : Bool

pub record RunOptions : Type 0 where
  pub bpf_target : Architecture
  pub release : Bool
  pub runner : Text
  pub run_args : List Text

abbrev cargo : Text
cargo = b'c' ∷ b'a' ∷ b'r' ∷ b'g' ∷ b'o' ∷ []

abbrev build_word : Text
build_word = b'b' ∷ b'u' ∷ b'i' ∷ b'l' ∷ b'd' ∷ []

abbrev release_flag : Text
release_flag = b'-' ∷ b'-' ∷ b'r' ∷ b'e' ∷ b'l' ∷ b'e' ∷ b'a' ∷ b's' ∷ b'e' ∷ []

abbrev target_flag : Text
target_flag = b'-' ∷ b'-' ∷ b't' ∷ b'a' ∷ b'r' ∷ b'g' ∷ b'e' ∷ b't' ∷ b'=' ∷ []

abbrev z_flag : Text
z_flag = b'-' ∷ b'Z' ∷ []

abbrev build_std : Text
build_std =
    b'b' ∷ b'u' ∷ b'i' ∷ b'l' ∷ b'd' ∷ b'-' ∷ b's' ∷ b't' ∷ b'd' ∷ b'=' ∷ b'c' ∷ b'o' ∷ b'r' ∷ b'e'
    ∷ []

abbrev splice_ebpf : Text
splice_ebpf =
    b'.' ∷ b'/' ∷ b's' ∷ b'p' ∷ b'l' ∷ b'i' ∷ b'c' ∷ b'e' ∷ b'-' ∷ b'e' ∷ b'b' ∷ b'p' ∷ b'f' ∷ []

abbrev rustup_toolchain : Text
rustup_toolchain =
    b'R' ∷ b'U' ∷ b'S' ∷ b'T' ∷ b'U' ∷ b'P' ∷ b'_' ∷ b'T' ∷ b'O' ∷ b'O' ∷ b'L' ∷ b'C' ∷ b'H' ∷ b'A'
    ∷ b'I' ∷ b'N' ∷ []

abbrev target_dir : Text
target_dir = b't' ∷ b'a' ∷ b'r' ∷ b'g' ∷ b'e' ∷ b't' ∷ b'/' ∷ []

abbrev release_word : Text
release_word = b'r' ∷ b'e' ∷ b'l' ∷ b'e' ∷ b'a' ∷ b's' ∷ b'e' ∷ []

abbrev debug_word : Text
debug_word = b'd' ∷ b'e' ∷ b'b' ∷ b'u' ∷ b'g' ∷ []

abbrev turbine_lb : Text
turbine_lb = b'/' ∷ b't' ∷ b'u' ∷ b'r' ∷ b'b' ∷ b'i' ∷ b'n' ∷ b'e' ∷ b'-' ∷ b'l' ∷ b'b' ∷ []

abbrev pub release_args : Bool → List Text
release_args release = if release then release_flag ∷ [] else []

abbrev pub ebpf_command : BuildOptions → Command
unfolding display
ebpf_command opts = record {
  program = cargo;
  args =
      (build_word ∷ (target_flag ++ display opts.target) ∷ z_flag ∷ build_std ∷ [])
      ++ release_args opts.release;
  current_dir = some splice_ebpf;
  env_remove = rustup_toolchain ∷ [];
}

abbrev pub build_command : RunOptions → Command
build_command opts = record {
  program = cargo;
  args = build_word ∷ release_args opts.release;
  current_dir = none;
  env_remove = [];
}

abbrev pub bin_path : RunOptions → Text
bin_path opts = target_dir ++ ((if opts.release then release_word else debug_word) ++ turbine_lb)

-- The words of the runner, the binary, and the arguments for it.
pub args_of : RunOptions → List Text
args_of opts = split_terminator (trim_end (trim_start opts.runner)) ++ bin_path opts ∷ opts.run_args

pub data Ran : Type 0 where
  returned failed panicked : Ran

-- `?`.
abbrev pub and_then : Ran × List Command → Ran × List Command → Ran × List Command
and_then (returned, t) (r, t') = (r, t ++ t')
and_then (failed, t) q = (failed, t)
and_then (panicked, t) q = (panicked, t)

-- `status()`: none where the command cannot be started, otherwise whether it succeeds. Every command
-- that is tried is in the trace.
module _ (status : Command → Option Bool) where
  -- `status().expect(..)` and `assert!(status.success())`.
  pub succeed : Command → Ran × List Command
  succeed c = elim (status c) [
    | none ↦ (panicked, c ∷ [])
    | some ok ↦ ((if ok then returned else panicked), c ∷ [])
  ]

  pub build_ebpf : BuildOptions → Ran × List Command
  build_ebpf opts = succeed (ebpf_command opts)

  pub build : RunOptions → Ran × List Command
  build opts = succeed (build_command opts)

  pub launch : List Text → Ran × List Command
  launch [] = (panicked, [])
  launch (program ∷ args) =
      let c : Command = record {
        program = program;
        args = args;
        current_dir = none;
        env_remove = [];
      } in
      elim (status c) [
        | none ↦ (panicked, c ∷ [])
        | some ok ↦ ((if ok then returned else failed), c ∷ [])
      ]

  pub run : RunOptions → Ran × List Command
  run opts =
      and_then (build_ebpf (record { target = opts.bpf_target; release = opts.release }))
        (and_then (build opts) (launch (args_of opts)))
