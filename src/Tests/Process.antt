-- ===== src/Tests/Process.antt =====
-- The process started by `run` without flags, on a cobra that runs the command that is named.
use platform_service_gitops.Prelude.{
  Bool, List, Option, String, [], ap, false, none, refl, some, ◌↔◌, ◌∙◌, ◌∷◌, ◌≡◌,
}
use platform_service_gitops.K8s.Memory.{absent}
use platform_service_gitops.Tests.Startup.{Log, cluster_library, libraries, manager_library}
use platform_service_gitops.Go.Eff.{Eff, fail, pure}
use platform_service_gitops.Go.Int.{pos}
use platform_service_gitops.Go.Time.{Duration}
use platform_service_gitops.Go.Error.{Result, err, ok}
use platform_service_gitops.Controller.AppInstallation.{set}
use platform_service_gitops.Main.Process.{Command, Process, RootCommand, main}
use platform_service_gitops.Main.Libraries.{CrdLibrary}
use platform_service_gitops.Main.Run.{run_command}
use platform_service_gitops.Main.Flags.{
  Default, Flag, FlagSet, duration, read_options, switch, text,
}
use platform_service_gitops.Main.Process.Defaults.{
  CobraLaws, default_of, default_options, main-defaults, named,
}

abbrev crd_library : CrdLibrary Log String String String
crd_library = record {
  cluster_label = "cluster";
  crds_from_file_system = λ folder. ok [];
  new_crd_manager = λ label crds. label;
  add_label_to_cluster = λ m purpose cluster. m;
  create_or_update_crds = λ m. pure (ok tt);
}

abbrev or_no_text : Option Default → String
or_no_text (some (text d)) = d
or_no_text (some (switch d)) = ""
or_no_text (some (duration d)) = ""
or_no_text none = ""

abbrev or_off : Option Default → Bool
or_off (some (switch d)) = d
or_off (some (text d)) = false
or_off (some (duration d)) = false
or_off none = false

abbrev or_none : Option Default → Duration
or_none (some (duration d)) = d
or_none (some (text d)) = pos 0
or_none (some (switch d)) = pos 0
or_none none = pos 0

abbrev defaults : List Flag → FlagSet
defaults flags = record {
  get_string = λ name. or_no_text (default_of name flags);
  get_bool = λ name. or_off (default_of name flags);
  get_duration = λ name. or_none (default_of name flags);
}

-- No flag is known.
abbrev parse : List Flag → List String → Result FlagSet
parse flags [] = ok (defaults flags)
parse flags (arg ∷ args) = err absent

abbrev run_parsed : Command Log → Result FlagSet → Eff Log (Result (Unit {0}))
run_parsed c (ok set) = c.run_e set
run_parsed c (err e) = fail e

abbrev run_named : Option (Command Log) → List String → Eff Log (Result (Unit {0}))
run_named none args = fail absent
run_named (some c) args = run_parsed c (parse c.flags args)

abbrev execute : List String → RootCommand Log → Eff Log (Result (Unit {0}))
execute [] root = pure (ok tt)
execute (name ∷ args) root = run_named (named name root.commands) args

abbrev process : Process Log String
process = record {
  args = "run" ∷ [];
  get_logger = pure (ok "logger");
  set_logger = λ logger. pure tt;
  execute = execute ("run" ∷ []);
  print_error = λ message. pure tt;
}

cobra_laws : CobraLaws process parse
cobra_laws = record {
  unset = λ flags. (
    defaults flags,
    refl,
    record {
      of_text = λ name d h. rw h refl;
      of_switch = λ name d h. rw h refl;
      of_duration = λ name d h. rw h refl;
    },
  );
  runs = λ root name args c set given found parsed.
      ap (λ a. execute a root) given ∙ rw (found, parsed) refl;
}

main-defaults_example :
    (set : FlagSet) × (read_options set ≡ default_options)
    × (((main cluster_library manager_library libraries crd_library process []).0 ≡ 0)
        ↔ ((run_command cluster_library manager_library libraries set []).0 ≡ ok tt))
main-defaults_example =
    main-defaults cluster_library manager_library libraries crd_library process parse "logger" []
      cobra_laws refl refl
