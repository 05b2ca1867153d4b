-- ===== src/Tests/CommandLibraries.antt =====
-- Runs of the library of commands.
use rport.Prelude.{String, false, some, [], ◌∷◌, ◌≡◌, refl, str_eq, if◌then◌else◌}
use rport.Result.{ok, err}
use rport.Text.{trim_left, trim_right, trim_space, split, has_prefix}
use rport.Query.{
  get_or_values, word_in_bracket, find_submatch, extract_options, extract_filter_options,
  extract_fields_options, trim_minus, sort_options, extract_sort_options, get_list_options,
}
use rport.Query.Checks.{
  validate_sort_options, validate_filter_options, validate_fields_options, validate_list_options,
  unsupported_sort,
}
use rport.Query.Sql.{add_where, add_order_by, replace_star_select, convert_list_options_to_query}
use rport.Scripts.{whole_seconds}
use rport.CommandLibrary.{
  Command, InputCommand, Env, same_name, unsupported, find_id, with_name, update_row, without_row,
  save, create, change, remove, list_commands, new_command,
}
use rport.CommandLibrary.Answers.{updated, change_answers}

commands : Unit {0}
unfolding trim_left trim_right trim_space split has_prefix get_or_values word_in_bracket
    find_submatch extract_options extract_filter_options extract_fields_options trim_minus
    sort_options extract_sort_options get_list_options validate_sort_options validate_filter_options
    validate_fields_options validate_list_options add_where add_order_by replace_star_select
    convert_list_options_to_query find_id with_name update_row without_row save create change remove
    list_commands whole_seconds
commands = tt

abbrev stored : Command
stored = record {
  id = "c1";
  name = "uptime";
  created_by = "ann";
  created_at = 3000000000;
  updated_by = "ann";
  updated_at = 3000000000;
  cmd = "uptime";
}

abbrev ordered : String
ordered = "SELECT * FROM `commands`ORDER BY name ASC"

-- The database answers one statement.
abbrev env : Env
env = record {
  now = 7000000005;
  new_command_id = some "c2";
  fault = λ op. false;
  select = λ q params. if str_eq q ordered then stored ∷ [] else [];
  to_upper = λ s. s;
}

abbrev input : InputCommand
input = record { name = "load"; cmd = "uptime -p" }

abbrev changed : Command
changed = record stored {
  name = "load";
  updated_by = "bob";
  updated_at = 7000000005;
  cmd = "uptime -p";
}

abbrev kept : Command
kept = record changed { updated_at = 7000000000 }

command_tests :
    ((change env "c1" input "bob" (stored ∷ [])) ≡ (ok changed, kept ∷ []))
    × ((create env (record input { name = "uptime" }) "bob" (stored ∷ [])).0 ≡ err same_name)
    × ((create env input "bob" []).0 ≡ ok (new_command env "c2" input "bob"))
    × ((remove env "c1" (stored ∷ [])) ≡ (ok tt, []))
    × (list_commands env (("sort", "name" ∷ []) ∷ []) ≡ ok (stored ∷ []))
    × (list_commands env (("sort", "cmd" ∷ []) ∷ [])
        ≡ err (unsupported (unsupported_sort "cmd" ∷ [])))
unfolding commands
command_tests = (refl, refl, refl, refl, refl, refl)

change_answers_example :
    (old : Command) × (find_id "c1" (stored ∷ []) ≡ some old)
    × (changed ≡ updated env "c1" input "bob" (stored ∷ []) old 7000000005)
    × ((other : String)
        → find_id other (kept ∷ []) ≡ (
            if str_eq "c1" other
            then some (updated env "c1" input "bob" (stored ∷ []) old 7000000000)
            else find_id other (stored ∷ [])))
unfolding commands
change_answers_example =
    change_answers env "c1" input "bob" (stored ∷ []) changed (kept ∷ []) refl refl
