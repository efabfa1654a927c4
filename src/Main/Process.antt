-- ===== src/Main/Process.antt =====
-- main of cmd/platform-service-gitops/main.go: the two commands, and the exit code of the process.
-- Cobra with its flags, and the logging library, are arguments.
pub mod Defaults
use platform_service_gitops.Prelude.{List, String, [], ℕ, ◌<>◌, ◌∷◌}
use platform_service_gitops.Go.Eff.{Eff, pure, try, ◌>>◌}
use platform_service_gitops.Go.Error.{Result}
use platform_service_gitops.Main.Libraries.{ClusterLibrary, CrdLibrary, ManagerLibrary}
use platform_service_gitops.Main.Init.{init_command}
use platform_service_gitops.Main.Run.{ReconcilerLibraries, run_command}
use platform_service_gitops.Main.Flags.{Flag, FlagSet, common_flags, run_flags}

-- cobra.Command, with the flags that are added to it
pub record Command (W : Type 0) : Type 0 where
  pub use_line : String
  pub short : String
  pub flags : List Flag
  pub run_e : FlagSet → Eff W (Result (Unit {0}))

-- A cobra.Command that has subcommands only.
pub record RootCommand (W : Type 0) : Type 0 where
  pub use_line : String
  pub short : String
  pub commands : List (Command W)

-- `args` is os.Args without the name of the program.
pub record Process (W Logger : Type 0) : Type 0 where
  pub args : List String
  pub get_logger : Eff W (Result Logger)
  pub set_logger : Logger → Eff W (Unit {0})
  pub execute : RootCommand W → Eff W (Result (Unit {0}))
  pub print_error : String → Eff W (Unit {0})

module _
    {W Config Cluster Access Manager Kubeconfig Transport Connection Crd CrdManager Logger : Type 0}
    (lib : ClusterLibrary W Config Cluster Access) (ctrl : ManagerLibrary W Config Cluster Manager)
    (libs : ReconcilerLibraries W Kubeconfig Transport Connection)
    (crd : CrdLibrary W Cluster Crd CrdManager) (process : Process W Logger) where
  unfoldable pub run_cmd : Command W
  unfolding run_flags run_command
  run_cmd = record {
    use_line = "run";
    short = "Run the platform-service-gitops controller manager";
    flags = run_flags;
    run_e = run_command lib ctrl libs;
  }

  unfoldable pub init_cmd : Command W
  unfolding common_flags init_command
  init_cmd = record {
    use_line = "init";
    short = "Install CRDs onto the platform and onboarding clusters";
    flags = common_flags;
    run_e = init_command lib crd;
  }

  unfoldable pub root_cmd : RootCommand W
  unfolding run_cmd init_cmd
  root_cmd = record {
    use_line = "platform-service-gitops";
    short = "GitOps platform service for OpenControlPlane";
    commands = run_cmd ∷ init_cmd ∷ [];
  }

  -- The message and os.Exit(1)
  abbrev pub exit_with : String → Eff W ℕ
  exit_with message = do process.print_error message; pure 1

  -- main, with the exit code of the process.
  unfoldable pub main : Eff W ℕ
  unfolding root_cmd
  main =
      try process.get_logger (λ e. exit_with ("failed to get logger: " <> (e.message <> "\n")))
        (λ logger.
          process.set_logger logger
          >> try (process.execute root_cmd) (λ e. exit_with ("error: " <> (e.message <> "\n")))
              (λ _. pure 0))
