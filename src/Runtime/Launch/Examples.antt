-- ===== src/Runtime/Launch/Examples.antt =====
-- A launch in a temporary home whose bridge accepts in the second round.
use jcode_go.Common.{◌≡◌, refl, true, false, [], ◌∷◌, none, some, codes, List}
use jcode_go.Errors.{ok}
use jcode_go.Json.Value.{pos, negsuc}
use jcode_go.Client.Options.{Options}
use jcode_go.Client.State.{new_client}
use jcode_go.Runtime.Paths.{FilePath, clean, is_rooted}
use jcode_go.Runtime.Paths.Canonical.{clean-IsName, clean-rooted}
use jcode_go.Runtime.Removal.{check_boundary}
use jcode_go.Runtime.Settings.{LaunchOptions, with_defaults, inherit_logins}
use jcode_go.Runtime.Launch.Removable.{IsAbsolute, AbsoluteResult, launch_instance-check_boundary}
use jcode_go.Runtime.Launch.{
  Answers, Action, Instance, launched, instance_of, launch_instance, accepts, sleeps, launch,
}
use jcode_go.Runtime.Launch.Owned.{home_of, is_temporary}
use jcode_go.Runtime.Launch.Settled.{IsSettled, launch-IsSettled}

abbrev options : Options
options = record {
  client_name = "jcode-sdk-go";
  max_frame_size = 0;
  event_buffer = 2;
  request_buffer = 1;
  request_timeout = 30;
  session_id = "";
  reconnect = record { max_attempts = 1; backoff = 0; max_backoff = 30; resume = false };
}

abbrev launch_options : LaunchOptions
launch_options = record {
  jcode_home = [];
  working_dir = [];
  inherit_logins = some false;
  binary = [];
  provider = codes " openai ";
  model = [];
  env = (codes "OPENAI_API_KEY", codes "sk-1") ∷ [];
  startup_timeout = pos 0;
  cleanup_timeout = negsuc 0;
  shutdown_grace_period = pos 0;
  shutdown_reap_timeout = pos 7;
  inherit_stderr = false;
}

abbrev answers : Answers
answers = record {
  temp_home = ok (codes "/tmp/jcode-sdk-instance-7");
  absolute = λ p. ok (clean (47 ∷ p));
  home_directory = none;
  run_directory = none;
  inherited = λ env. ok env;
  binary = codes "jcode";
  stderr_pipe = none;
  started = ok 41;
  rounds = sleeps ∷ accepts ∷ [];
  daemon_pid = 43;
  termination = none;
  stderr = [];
}

launch-IsSettled_example :
    IsSettled
      (is_temporary launch_options)
      (home_of launch_options answers)
      1
      (launch launch_options answers 1 (some 2) none (ok (new_client options)))
launch-IsSettled_example =
    launch-IsSettled launch_options answers 1 (some 2) none (ok (new_client options))

clean-IsAbsolute : (p : FilePath) → is_rooted p ≡ true → IsAbsolute (clean p)
clean-IsAbsolute p r =
    let (above, names, is) = clean-IsName p r in rw is (refl, clean-rooted above names)

absolute_home : (p : FilePath) → AbsoluteResult (answers.absolute p)
absolute_home p = clean-IsAbsolute (47 ∷ p) refl

abbrev made : Instance
made =
    instance_of (with_defaults launch_options) answers true (codes "/tmp/jcode-sdk-instance-7") 41

abbrev actions : List Action
actions = (launch_instance launch_options answers).0

makes : launch_instance launch_options answers ≡ (actions, launched made)
unfolding launch_instance with_defaults inherit_logins clean
makes = refl

launch_instance-check_boundary_example :
    check_boundary (clean made.jcode_home) (clean made.runtime_dir) made.owned_paths ≡ none
launch_instance-check_boundary_example =
    launch_instance-check_boundary launch_options answers absolute_home makes
