-- ===== src/Runners/Custom.antt =====
-- internal/pipeline/runner.go: CustomRunner.Run. The executor of package goexec is a record of
-- functions on the world.
use Prim.Native.Char.{code}
use Prim.Native.String as Text
use Prim.Native.String.{◌++◌ as text_append}
use devsec.Base.{
  ◌⊎◌, inl, inr, Bool, List, [], ◌∷◌, String, if◌then◌else◌, text_eq, Bool-cases, Option, none,
  some,
}
use devsec.Base.Int.{ℤ}
use devsec.Pipeline.Types.{Stage, stage_get_timeout}
use devsec.Pipeline.Result.{Artifact, other_artifact}
use devsec.Pipeline.Runner.{RunnerInput}
use devsec.Runners.Common.{
  Tools, config_value, or_default, Ran, fail, cancel, succeed, fail_with, IsCoherent,
  fail-IsCoherent, cancel-IsCoherent, succeed-IsCoherent, fail_with-IsCoherent,
}
use devsec.Runners.Command.{Bytes, parse_command}

-- The result of a command: its exit code, and Success.
pub record ExecResult : Type 0 where
  pub exit_code : ℤ
  pub success : Bool

-- goexec.New, with the text of its error; Build of a command; Execute; Shutdown; and %d.
pub record Shell (W Command : Type 0) : Type 0 where
  pub new : W → Option String × W
  pub build : Bytes → List Bytes → (timeout : ℤ) → (work_dir : String) → String ⊎ Command
  pub execute : Command → W → (String ⊎ ExecResult) × W
  pub shutdown : W → W
  pub decimal : ℤ → String

-- The characters of a text. The loop of parseCommand walks bytes; it splits at ASCII characters only,
-- and so splits the characters as it splits their bytes.
abbrev pub codes : String → Bytes
codes Text.[] = []
codes (Text.◌∷◌ c s) = code c ∷ codes s

module _ {W Command : Type 0} (tools : Tools W) (shell : Shell W Command) (s : Stage) where
  artifacts : List (String × Artifact)
  artifacts =
      ("command", other_artifact)
      ∷ ("work_dir", other_artifact)
      ∷ ("exit_code", other_artifact)
      ∷ ("stdout", other_artifact)
      ∷ ("stderr", other_artifact)
      ∷ []

  finished : ExecResult → W → Ran W
  unfolding artifacts succeed fail_with
  finished r w =
      if r.success
      then succeed tools s artifacts w
      else fail_with tools s
          (text_append "command failed with exit code " (shell.decimal r.exit_code)) artifacts w

  executed : (String ⊎ ExecResult) × W → Ran W
  unfolding fail finished
  executed (inl e, w) = fail tools s (text_append "failed to execute command: " e) w
  executed (inr r, w) = finished r w

  built : String ⊎ Command → W → Ran W
  unfolding fail executed
  built (inl e) w = fail tools s (text_append "failed to build command: " e) w
  built (inr command) w = executed (shell.execute command w)

  run_parts : String → List Bytes → W → Ran W
  unfolding fail built
  run_parts dir [] w = fail tools s "invalid command" w
  run_parts dir (name ∷ args) w = built (shell.build name args (stage_get_timeout s) dir) w

  shut_down : Ran W → Ran W
  shut_down (r, err, w) = (r, err, shell.shutdown w)

  with_executor : String → String → Option String × W → Ran W
  unfolding fail run_parts shut_down parse_command
  with_executor command dir (some e, w) =
      fail tools s (text_append "failed to create executor: " e) w
  with_executor command dir (none, w) = shut_down (run_parts dir (parse_command (codes command)) w)

  -- The working directory.
  work_dir : String → String
  unfolding config_value or_default
  work_dir default =
      let dir = or_default (config_value "working_dir" s.config) default in
      if tools.is_abs dir then dir else tools.join default dir

  run_command : String → RunnerInput → W → Ran W
  unfolding fail with_executor work_dir
  run_command command input w =
      if text_eq command ""
      then fail tools s "command not specified" w
      else with_executor command (work_dir input.work_dir) (shell.new w)

  -- CustomRunner.Run
  unfoldable pub run_custom : RunnerInput → W → Ran W
  unfolding cancel run_command
  run_custom input w =
      if tools.done w
      then cancel tools s w
      else run_command (config_value "command" s.config) input w

  finished-IsCoherent : (r : ExecResult) (w : W) → IsCoherent tools s (finished r w)
  unfolding finished
  finished-IsCoherent r w = elim (Bool-cases r.success) [
    | inl e ↦ rw e (succeed-IsCoherent tools s _ w)
    | inr e ↦ rw e (fail_with-IsCoherent tools s _ _ w)
  ]

  executed-IsCoherent : (o : String ⊎ ExecResult) (w : W) → IsCoherent tools s (executed (o, w))
  unfolding executed
  executed-IsCoherent (inl e) w = fail-IsCoherent tools s _ w
  executed-IsCoherent (inr r) w = finished-IsCoherent r w

  built-IsCoherent : (o : String ⊎ Command) (w : W) → IsCoherent tools s (built o w)
  unfolding built
  built-IsCoherent (inl e) w = fail-IsCoherent tools s _ w
  built-IsCoherent (inr command) w =
      let ran = shell.execute command w in executed-IsCoherent ran.0 ran.1

  run_parts-IsCoherent :
      (dir : String) (parts : List Bytes) (w : W) → IsCoherent tools s (run_parts dir parts w)
  unfolding run_parts
  run_parts-IsCoherent dir [] w = fail-IsCoherent tools s _ w
  run_parts-IsCoherent dir (name ∷ args) w = built-IsCoherent _ w

  shut_down-IsCoherent : (ran : Ran W) → IsCoherent tools s ran → IsCoherent tools s (shut_down ran)
  unfolding shut_down
  shut_down-IsCoherent ran c = record { named = c.named; status = c.status }

  with_executor-IsCoherent :
      (command dir : String) (o : Option String) (w : W)
      → IsCoherent tools s (with_executor command dir (o, w))
  unfolding with_executor
  with_executor-IsCoherent command dir (some e) w = fail-IsCoherent tools s _ w
  with_executor-IsCoherent command dir none w =
      shut_down-IsCoherent _ (run_parts-IsCoherent dir (parse_command (codes command)) w)

  run_command-IsCoherent :
      (command : String) (input : RunnerInput) (w : W)
      → IsCoherent tools s (run_command command input w)
  unfolding run_command
  run_command-IsCoherent command input w = elim (Bool-cases (text_eq command "")) [
    | inl e ↦ rw e (fail-IsCoherent tools s _ w)
    | inr e ↦
        let o = shell.new w in
        rw e (with_executor-IsCoherent command (work_dir input.work_dir) o.0 o.1)
  ]

  -- Whatever the command does, the result of a custom stage is a success exactly when there is no
  -- error.
  pub run_custom-IsCoherent :
      (input : RunnerInput) (w : W) → IsCoherent tools s (run_custom input w)
  unfolding run_custom
  run_custom-IsCoherent input w = elim (Bool-cases (tools.done w)) [
    | inl e ↦ rw e (cancel-IsCoherent tools s w)
    | inr e ↦ rw e (run_command-IsCoherent (config_value "command" s.config) input w)
  ]
