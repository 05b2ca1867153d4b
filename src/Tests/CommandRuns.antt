-- ===== src/Tests/CommandRuns.antt =====
-- Runs of what a client does with a command.
use rport.Prelude.{true, false, [], ◌∷◌, ◌≡◌, refl}
use rport.Result.{ok, err}
use rport.Commands.{
  RemoteCommands, allow_deny, deny_allow, is_allowed, get_interpreter, interpreter_on_unix, write,
  build_err_text,
}
use rport.Prelude.{some}
use rport.Commands.Output.{write_all, new_buffer, write_all_lem}

commands : Unit {0}
unfolding is_allowed get_interpreter write write_all build_err_text
commands = tt

abbrev both_match : RemoteCommands
both_match = record {
  allow_regexp = (λ cmd. true) ∷ [];
  deny_regexp = (λ cmd. true) ∷ [];
  order = allow_deny;
}

command_tests :
    (is_allowed both_match "ls" ≡ false)
    × (is_allowed (record both_match { order = deny_allow }) "ls" ≡ true)
    × (get_interpreter "" "linux" false ≡ ok "/bin/sh")
    × (get_interpreter "cmd" "linux" false ≡ err (interpreter_on_unix "cmd"))
    × (get_interpreter "powershell" "windows" false ≡ ok "powershell")
    × ((write (1 ∷ 2 ∷ 3 ∷ []) (new_buffer 2)).0 ≡ (0, true))
    × (build_err_text
          (λ n. "2")
          (some "exit status 1")
          (new_buffer 2)
          (write (1 ∷ 2 ∷ 3 ∷ []) (new_buffer 2)).1
        ≡ "exit status 1, overflow of stdErr buffer: maximum send_back_limit of 2 bytes exceeded")
unfolding commands
command_tests = (refl, refl, refl, refl, refl, refl, refl)

write_all_lem_example :
    ((write_all ((1 ∷ []) ∷ (2 ∷ 3 ∷ []) ∷ []) (new_buffer 2)).data_ ≡ 1 ∷ 2 ∷ [])
    × ((write_all ((1 ∷ []) ∷ (2 ∷ 3 ∷ []) ∷ []) (new_buffer 2)).has_overflow ≡ true)
write_all_lem_example = write_all_lem ((1 ∷ []) ∷ (2 ∷ 3 ∷ []) ∷ []) 2
