-- ===== src/ClientAuth/File.antt =====
-- server/clientsauth/file.go and single.go. The file is the map that the JSON decoder finds in it; a
-- file that holds JSON's null, whose map cannot be written, is left out.
use rport.Prelude.{
  String, Bool, true, false, ◌||◌, Option, none, some, List, [], ◌∷◌, str_eq, if◌then◌else◌,
}
use rport.Result.{Result, ok, err, and_then, refuse_if}
use rport.Exec.{Exec, pure, reads, ◌>>=◌, ◌>>◌}
use rport.Dict.{Dict, lookup, insert, remove}
use rport.ClientAuth.Model.{
  ClientAuth, Provider, Error, read_failed, write_failed, not_implemented, empty_id_or_password,
}

-- Whether reading or decoding fails, and what a failed write leaves in the file (`none`: the write
-- succeeds).
pub record FileEnv : Type 0 where
  pub read_fails : Bool
  pub write_leaves : Option (Dict String)

abbrev pub FileCall : Type 0 → Type 0
FileCall = Exec Error (Dict String)

abbrev pub load : FileEnv → Dict String → Result Error (Dict String)
load env file = and_then (refuse_if env.read_fails read_failed) λ _. ok file

abbrev pub write : FileEnv → Dict String → FileCall (Unit {0})
write env pairs file = elim env.write_leaves [
  | none ↦ (ok tt, pairs)
  | some left ↦ (err write_failed, left)
]

unfoldable pub credentials : Dict String → Result Error (List ClientAuth)
credentials [] = ok []
credentials (e ∷ rest) =
    if str_eq e.0 "" || str_eq e.1 ""
    then err empty_id_or_password
    else and_then (credentials rest) λ res. ok (record { id = e.0; password = e.1 } ∷ res)

abbrev pub get_all : FileEnv → Dict String → Result Error (List ClientAuth)
get_all env file = and_then (load env file) credentials

-- A missing key of a Go map of strings reads as the empty text.
abbrev pub or_empty : Option String → String
or_empty none = ""
or_empty (some s) = s

abbrev pub get : FileEnv → String → Dict String → Result Error (Option ClientAuth)
get env id file =
    and_then (load env file)
      λ pairs. ok (some (record { id = id; password = or_empty (lookup id pairs) }))

abbrev pub add_new : FileEnv → ClientAuth → Dict String → Option String → FileCall Bool
add_new env client pairs (some p) = pure false
add_new env client pairs none = write env (insert client.id client.password pairs) >> pure true

unfoldable pub add : FileEnv → ClientAuth → FileCall Bool
add env client = reads (load env) >>= λ pairs. add_new env client pairs (lookup client.id pairs)

unfoldable pub delete : FileEnv → String → FileCall (Unit {0})
delete env id = reads (load env) >>= λ pairs. write env (remove id pairs)

abbrev pub file_provider : Provider
file_provider = record {
  Env = FileEnv;
  Store = Dict String;
  get = get;
  get_all = get_all;
  add = add;
  delete = delete;
  is_writeable = true;
}

-- `SingleProvider`, with its one entry.
abbrev pub single_provider : ClientAuth → Provider
single_provider client = record {
  Env = Unit {0};
  Store = Unit {0};
  get = λ env id s. ok (if str_eq client.id id then some client else none);
  get_all = λ env s. ok (client ∷ []);
  add = λ env c s. (err not_implemented, s);
  delete = λ env id s. (err not_implemented, s);
  is_writeable = false;
}
