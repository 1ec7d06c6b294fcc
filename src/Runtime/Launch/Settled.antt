-- ===== src/Runtime/Launch/Settled.antt =====
-- The launch of a client undoes what it did, or hands the instance over.
use jcode_go.Common.{
  ℕ, Bool, ◌≡◌, true, false, not, ◌&&◌, ◌||◌, List, ◌∷◌, Option, none, some, arith,
}
use jcode_go.Errors.{GoError, Result, ok, err}
use jcode_go.Client.State.{Client}
use jcode_go.Client.Operations.{set_instance}
use jcode_go.Runtime.Paths.{FilePath}
use jcode_go.Runtime.Settings.{LaunchOptions}
use jcode_go.Runtime.Launch.{
  Action, Answers, launched, failed, Run, note, launch_instance, LaunchResult, connected, refused,
  with_instance, launch,
}
use jcode_go.Runtime.Launch.Owned.{
  any, any-append, makes, starts_one, tidies, undoes, stops, Ended, launch_instance-Ended, home_of,
  is_temporary,
}

-- What a launch in the home, which is temporary or not, leaves: all undone, or an instance that runs
-- and belongs to the client.
abbrev pub IsSettled : Bool → FilePath → ℕ → List Action × LaunchResult → Type 0
IsSettled ephemeral home i (actions, refused e) =
    ((not (any makes actions) || any (tidies ephemeral home) actions) ≡ true)
    × ((not (any starts_one actions) || (any (tidies ephemeral home) actions && any stops actions))
        ≡ true)
IsSettled ephemeral home i (actions, connected c) =
    (any starts_one actions ≡ true)
    × (any undoes actions ≡ false)
    × (any stops actions ≡ false)
    × (c.instance_id ≡ some i)

-- Wherever a launch fails, with its directories, its credentials, its process, the socket, the
-- connection or the handshake: if it made a temporary home, it removed that very home, under the
-- path that filepath.Abs gave or under its own if that failed, or cleaned it up as temporary with
-- its runtime directory and the four paths in that; and if it started a process, that has exited or
-- is terminated, and the home with the runtime directory and the four paths in it is cleaned up, as
-- temporary exactly if it is. A launch that succeeds started a process, undid nothing, and its
-- client owns the instance.
pub launch-IsSettled :
    (o : LaunchOptions) (a : Answers) (i : ℕ) (monitor : Option ℕ) (dialed : Option GoError)
    (client : Result Client)
    → IsSettled (is_temporary o) (home_of o a) i (launch o a i monitor dialed client)
unfolding launch any set_instance
launch-IsSettled o a i monitor dialed client =
    settled (launch_instance o a) dialed client (launch_instance-Ended o a)
  where
    settled :
        (run : Run) (dialed : Option GoError) (client : Result Client)
        → Ended false (is_temporary o) (home_of o a) run
        → IsSettled (is_temporary o) (home_of o a) i (
            let (actions, r) = with_instance i monitor dialed client run in
            (note "launch_start" ∷ actions, r))
    settled (actions, failed e) dialed client h = simp any-append (ground (arith, h))
    settled (actions, launched made) (some e) client (s, u, t, is) =
        simp (any-append, s, is) (ground arith)
    settled (actions, launched made) none (err e) (s, u, t, is) =
        simp (any-append, s, is) (ground arith)
    settled (actions, launched made) none (ok c) h = simp any-append (ground (arith, h))
