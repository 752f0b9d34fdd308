-- ===== src/Main/Options.antt =====
-- The options of `main` in __main__.py: the command line, then the environment, then the defaults.
use agentanvil.Prelude.{ℕ, String, Bool, true, ◌||◌, ◌&&◌, Option, none, some, leb, ◌+◌, map}
use agentanvil.Prelude.{◌≡◌, refl, if◌then◌else◌}
use agentanvil.Python.Text.{lit}
use agentanvil.Python.FilePath.{text_eq}

abbrev pub default_task_path : String
default_task_path = "/etc/agent-anvil/task.yaml"

abbrev pub default_trace_dir : String
default_trace_dir = "/var/log/agent-anvil"

abbrev pub default_workspace : String
default_workspace = "/workspace"

-- What `argparse` found on the command line; `none` is an option that was not given.
pub record Given : Type 0 where
  pub task : Option String
  pub trace_dir : Option String
  pub workspace : Option String
  pub task_id : Option String
  pub provider : Option String
  pub echo_events : Bool

pub record Arguments : Type 0 where
  pub task : String
  pub trace_dir : String
  pub workspace : String
  pub task_id : String
  pub provider : Option String
  pub echo_events : Bool

-- `d.get(key, default)`, of the value under the key.
abbrev pub get_or {ℓ} : {A : Type ℓ} → A → Option A → A
get_or default none = default
get_or default (some v) = v

abbrev pub first_of : Option String → Option String → Option String
first_of none v = v
first_of (some s) v = some s

-- `.lower()` on ASCII. No other character has a lower case that is a letter of the three words.
lower_char : ℕ → ℕ
lower_char c = if leb b'A' c && leb c b'Z' then c + 32 else c

unfoldable pub is_truthy : String → Bool
unfolding lower_char
is_truthy s =
    let t = map lower_char (lit s) in
    text_eq t (lit "1") || text_eq t (lit "true") || text_eq t (lit "yes")

-- `os.environ.get` is the parameter.
module _ (environ : String → Option String) where
  -- `parse_args` with the defaults of `add_argument`.
  unfoldable pub arguments : Given → Arguments
  unfolding is_truthy
  arguments given = record {
    task = get_or (get_or default_task_path (environ "AGENT_ANVIL_TASK_FILE")) given.task;
    trace_dir = get_or (get_or default_trace_dir (environ "AGENT_ANVIL_TRACE_DIR")) given.trace_dir;
    workspace = get_or (get_or default_workspace (environ "AGENT_ANVIL_WORKSPACE")) given.workspace;
    task_id = get_or (get_or "local-task" (environ "AGENT_ANVIL_TASK_ID")) given.task_id;
    provider = first_of given.provider (environ "AGENT_ANVIL_PROVIDER");
    echo_events =
        if given.echo_events
        then true
        else is_truthy (get_or "" (environ "AGENT_ANVIL_ECHO_EVENTS"));
  }

truthy_yes : is_truthy "YeS" ≡ true
unfolding is_truthy text_eq lit
truthy_yes = refl
