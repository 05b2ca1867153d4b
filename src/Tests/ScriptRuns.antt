-- ===== src/Tests/ScriptRuns.antt =====
-- Runs of the library of scripts.
use rport.Prelude.{true, false, some, List, [], ◌∷◌, ◌≡◌, refl}
use rport.Result.{ok, err}
use rport.Scripts.{
  Script, InputScript, Env, same_name, not_found, invalid, name_is_required, find_id, with_name,
  update_row, without_row, save, to_save, create, change, remove,
}
use rport.Scripts.Changes.{with_input}

scripts : Unit {0}
unfolding find_id with_name update_row without_row save create change remove
scripts = tt

abbrev env : Env
env = record { now = 7; new_script_id = some "s2"; fault = λ op. false }

abbrev stored : Script
stored = record {
  id = "s1";
  name = "uptime";
  created_by = "ann";
  created_at = 3;
  interpreter = "";
  is_sudo = false;
  cwd = "";
  script = "uptime";
}

abbrev input : InputScript
input = record { name = "load"; interpreter = ""; is_sudo = true; cwd = "/"; script = "uptime -p" }

abbrev changed : List Script
changed = with_input input stored ∷ []

script_tests :
    ((change env "s1" input "bob" (stored ∷ [])).1 ≡ changed)
    × ((create env (record input { name = "uptime" }) "bob" (stored ∷ [])).0 ≡ err same_name)
    × ((create env (record input { name = "" }) "bob" []).0 ≡ err (invalid (name_is_required ∷ [])))
    × ((create env input "bob" []).0 ≡ ok (to_save env "s2" input "bob"))
    × ((remove env "s1" (stored ∷ [])) ≡ (ok tt, []))
    × ((remove env "s3" (stored ∷ [])).0 ≡ err not_found)
unfolding scripts
script_tests = (refl, refl, refl, refl, refl, refl)
