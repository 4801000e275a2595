-- ===== src/Xtask/Tests.antt =====
-- xtask/src on `sudo -E` and a command that is missing.
use proxy_printer.Base.{◌≡◌, refl, Bool, true, [], ◌∷◌, Option, some, bytes_eq}
use proxy_printer.Xtask.{
  Text, Architecture, bpf_el, from_str, display, split_space, drop_empty_last, split_terminator,
  trim_end, trim_start, Command, RunOptions, run,
}
use proxy_printer.Xtask.Runs.{Runs, run-Runs}

sudo : Text
sudo = b' ' ∷ b's' ∷ b'u' ∷ b'd' ∷ b'o' ∷ b' ' ∷ b'-' ∷ b'E' ∷ b' ' ∷ []

words_of_sudo :
    split_terminator (trim_end (trim_start sudo))
    ≡ (b's' ∷ b'u' ∷ b'd' ∷ b'o' ∷ []) ∷ (b'-' ∷ b'E' ∷ []) ∷ []
unfolding sudo split_terminator split_space drop_empty_last trim_end trim_start
words_of_sudo = refl

-- A name that is shown is read back.
from_str-display : (a : Architecture) → from_str (display a) ≡ some a
unfolding from_str display bytes_eq
from_str-display Architecture.bpf_el = refl
from_str-display Architecture.bpf_eb = refl

abbrev options : RunOptions
options = record {
  bpf_target = bpf_el;
  release = true;
  runner = b' ' ∷ b'x' ∷ [];
  run_args = (b'-' ∷ b'v' ∷ []) ∷ [];
}

abbrev all_well : Command → Option Bool
all_well c = some true

run-Runs_example : Runs all_well options (run all_well options)
run-Runs_example = run-Runs all_well options
