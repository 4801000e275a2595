-- ===== src/Xtask/Runs.antt =====
-- What `run` (xtask/src/run.rs) executes, and how it ends.
use proxy_printer.Base.{
  subst, ◌∙◌, ◌≡◌, ◌≢◌, refl, ◌⊎◌, inl, inr, Bool, true, false, List, [], ◌∷◌, ◌++◌, Option, none,
  some, arith, if◌then◌else◌,
}
use proxy_printer.Xtask.{
  Text, Command, RunOptions, ebpf_command, build_command, args_of, Ran, returned, failed, panicked,
  succeed, and_then, build_ebpf, build, launch, run, split_terminator, trim_end, trim_start,
}
use proxy_printer.Xtask.Words.{
  words, binary, kernel_build, turbine_build, ebpf_command-kernel_build,
  build_command-turbine_build, args_of-words,
}

-- The last command: its program and arguments are the words of the runner, the binary, and the
-- arguments given.
pub record Launches (opts : RunOptions) (c : Command) : Type 0 where
  pub whole : c.program ∷ c.args ≡ words opts
  pub here : c.current_dir ≡ none
  pub same_environment : c.env_remove ≡ []

module _ (status : Command → Option Bool) where
  abbrev Succeeds : Command → Type 0
  Succeeds c = status c ≡ some true

  succeed-cases :
      (c : Command)
      → (Succeeds c × (succeed status c ≡ (returned, c ∷ [])))
        ⊎ ((status c ≢ some true) × (succeed status c ≡ (panicked, c ∷ [])))
  unfolding succeed
  succeed-cases c = ground arith

  -- With `first` and `second` for the two builds.
  module _ (opts : RunOptions) (first second : Command) where
    -- The two builds succeed, and the last command is tried.
    pub record Tried (answer : Option Bool) (t : List Command) : Type 0 where
      pub last : Command
      pub launches : Launches opts last
      pub trace : t ≡ first ∷ second ∷ last ∷ []
      pub ebpf_built : Succeeds first
      pub built : Succeeds second
      pub answered : status last ≡ answer

    abbrev Goes : Ran × List Command → Type 0
    Goes (returned, t) = Tried (some true) t
    Goes (failed, t) = Tried (some false) t
    Goes (panicked, t) =
        ((t ≡ first ∷ []) × (status first ≢ some true))
        ⊎ (((t ≡ first ∷ second ∷ []) × Succeeds first × (status second ≢ some true))
            ⊎ Tried none t)

    module _ (ebpf_built : Succeeds first) (built : Succeeds second) where
      tried :
          (c : Command) (o : Option Bool)
          → Launches opts c
          → status c ≡ o
          → Tried o (first ∷ second ∷ c ∷ [])
      tried c o l e = record {
        last = c;
        launches = l;
        trace = refl;
        ebpf_built = ebpf_built;
        built = built;
        answered = e;
      }

      answered-Goes :
          (c : Command) (o : Option Bool)
          → Launches opts c
          → status c ≡ o
          → Goes (
              and_then
                (returned, first ∷ [])
                (and_then
                  (returned, second ∷ [])
                  (elim o [
                    | none ↦ (panicked, c ∷ [])
                    | some ok ↦ ((if ok then returned else failed), c ∷ [])
                  ])))
      answered-Goes c none l e = inr (inr (tried c none l e))
      answered-Goes c (some true) l e = tried c (some true) l e
      answered-Goes c (some false) l e = tried c (some false) l e

      launch-Goes :
          (args : List Text) (p : Text) (rest : List Text)
          → args ≡ p ∷ rest
          → args ≡ words opts
          → Goes (
              and_then
                (returned, first ∷ [])
                (and_then (returned, second ∷ []) (launch status args)))
      unfolding launch
      launch-Goes [] p rest e f = cc
      launch-Goes (q ∷ qs) p rest e f =
          let c : Command = record {
            program = q;
            args = qs;
            current_dir = none;
            env_remove = [];
          } in
          answered-Goes c (status c) (record { whole = f; here = refl; same_environment = refl })
            refl

  module _ (opts : RunOptions) where
    -- There is always a first argument.
    words-cons : (p : Text) × (rest : List Text) × (words opts ≡ p ∷ rest)
    words-cons = cons (split_terminator (trim_end (trim_start opts.runner)))
      where
        cons :
            (parts : List Text)
            → (p : Text) × (rest : List Text) × (parts ++ binary opts.release ∷ opts.run_args
                ≡ p ∷ rest)
        cons [] = (binary opts.release, opts.run_args, refl)
        cons (w ∷ ws) = (w, ws ++ binary opts.release ∷ opts.run_args, refl)

    abbrev ebpf : Command
    ebpf = ebpf_command (record { target = opts.bpf_target; release = opts.release })

    commands-Goes : Goes opts ebpf (build_command opts) (run status opts)
    unfolding run build_ebpf build
    commands-Goes = elim (succeed-cases ebpf) [
      | inr (bad, e) ↦ rw e (inl (refl, bad))
      | inl (good, e) ↦ rw e (elim (succeed-cases (build_command opts)) [
        | inr (bad, f) ↦ rw f (inr (inl (refl, good, bad)))
        | inl (built, f) ↦
            let (p, rest, g) = words-cons in
            let same = args_of-words opts in
            rw f (
              launch-Goes opts ebpf (build_command opts) good built (args_of opts) p rest (same ∙ g)
                same)
      ])
    ]

    -- The commands that went before are the two builds, by their words.
    abbrev pub Runs : Ran × List Command → Type 0
    Runs q = Goes opts (kernel_build opts.bpf_target opts.release) (turbine_build opts.release) q

    -- `run` executes `cargo build --target=.. -Z build-std=core` for the kernel program, in its
    -- directory and without RUSTUP_TOOLCHAIN, then `cargo build` for turbine, both with `--release`
    -- exactly for a release; then the words of the trimmed runner, the path of the binary that was
    -- built and all the arguments given, as one command. It tries no command behind one that does not
    -- succeed. It returns exactly if all three succeed; its only error is a last command that runs and
    -- does not succeed, while a build that does not succeed, or a command that cannot be started, is a
    -- panic.
    pub run-Runs : Runs (run status opts)
    run-Runs =
        let kernel = ebpf_command-kernel_build opts.bpf_target opts.release in
        let turbine = build_command-turbine_build opts in
        subst (λ c. Goes opts (kernel_build opts.bpf_target opts.release) c (run status opts))
          turbine
          (subst (λ c. Goes opts c (build_command opts) (run status opts)) kernel commands-Goes)
