-- ===== src/Commands.antt =====
-- client/exec.go: what a client runs for the server, and what it keeps of the output. The handler that
-- starts the process and waits for it is left out, and so is its log.
pub mod Output
pub mod Running
pub mod Exclusive
pub mod Release
use Prim.Native.String.{◌++◌ as concat}
use rport.Prelude.{
  ℕ, ◌-◌, String, Bool, true, false, not, ◌||◌, Option, none, some, List, [], ◌∷◌, ◌++◌, str_eq,
  ltb, length, take, if◌then◌else◌,
}
use rport.Result.{Result, ok, err}

abbrev pub tacoscript : String
tacoscript = "tacoscript"

abbrev pub cmd_shell : String
cmd_shell = "cmd"

abbrev pub power_shell : String
power_shell = "powershell"

abbrev pub unix_shell : String
unix_shell = "/bin/sh"

pub data InterpreterError : Type 0 where
  invalid_windows_interpreter interpreter_on_unix : String → InterpreterError

abbrev pub windows_interpreter : String → Result InterpreterError String
windows_interpreter input =
    if str_eq input ""
    then ok cmd_shell
    else if str_eq input cmd_shell || str_eq input power_shell
    then ok input
    else err (invalid_windows_interpreter input)

unfoldable pub get_interpreter : String → String → Bool → Result InterpreterError String
get_interpreter input os has_shebang =
    if str_eq input tacoscript
    then ok input
    else if str_eq os "windows"
    then windows_interpreter input
    else if has_shebang
    then ok ""
    else if not (str_eq input "")
    then err (interpreter_on_unix input)
    else ok unix_shell

-- A compiled regular expression is the texts that it matches.
abbrev pub Regexp : Type 0
Regexp = String → Bool

abbrev pub match_regexp : String → List Regexp → Bool
match_regexp cmd [] = false
match_regexp cmd (regx ∷ more) = regx cmd || match_regexp cmd more

-- The third is a setting that is neither of the two.
pub data Order : Type 0 where
  allow_deny deny_allow other_order : Order

pub record RemoteCommands : Type 0 where
  pub allow_regexp : List Regexp
  pub deny_regexp : List Regexp
  pub order : Order

abbrev pub decide : Order → Bool → Bool → Bool
decide allow_deny allow_match deny_match = if not allow_match then false else not deny_match
decide deny_allow allow_match deny_match = if allow_match then true else not deny_match
decide other_order allow_match deny_match = false

unfoldable pub is_allowed : RemoteCommands → String → Bool
is_allowed config cmd =
    decide config.order (match_regexp cmd config.allow_regexp) (match_regexp cmd config.deny_regexp)

pub record CapacityBuffer : Type 0 where
  pub data_ : List ℕ
  pub capacity : ℕ
  pub has_overflow : Bool

-- `CapacityBuffer.Write`: the number of bytes that it says it wrote, and whether it fails. A slice to a
-- negative bound would panic; the free capacity is never negative.
unfoldable pub write : List ℕ → CapacityBuffer → (ℕ × Bool) × CapacityBuffer
write p b =
    let free_capacity = b.capacity - length b.data_ in
    if ltb free_capacity (length p)
    then ((0, true), record b { data_ = b.data_ ++ take free_capacity p; has_overflow = true })
    else ((length p, false), record b { data_ = b.data_ ++ p })

abbrev pub join : String → List String → String
join sep [] = ""
join sep (s ∷ []) = s
join sep (s ∷ t ∷ more) = concat s (concat sep (join sep (t ∷ more)))

abbrev pub message_of : Option String → List String
message_of none = []
message_of (some e) = e ∷ []

-- `fmt.Sprintf("overflow of %s buffer: %s", …)`; how a number is printed is a parameter.
abbrev pub overflow_text : (ℕ → String) → String → CapacityBuffer → List String
overflow_text itoa name b =
    if b.has_overflow
    then concat "overflow of " (
        concat name (
          concat " buffer: maximum send_back_limit of "
            (concat (itoa b.capacity) " bytes exceeded")))
      ∷ []
    else []

unfoldable pub build_err_text :
    (ℕ → String) → Option String → CapacityBuffer → CapacityBuffer → String
build_err_text itoa exec_err std_out std_err = join ", " (
    message_of exec_err
    ++ overflow_text itoa "stdOut" std_out
    ++ overflow_text itoa "stdErr" std_err)
