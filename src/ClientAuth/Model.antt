-- ===== src/ClientAuth/Model.antt =====
-- server/clientsauth/clientauth.go and provider.go.
use rport.Prelude.{String, Bool, Option, List}
use rport.Result.{Result}

pub record ClientAuth : Type 0 where
  pub id : String
  pub password : String

pub data Error : Type 0 where
  read_failed write_failed not_implemented : Error
  empty_id_or_password : Error

-- What a call of a provider finds in the world, and what it changes there, are the provider's.
pub record Provider : Type 1 where
  pub Env : Type 0
  pub Store : Type 0
  pub get : Env → String → Store → Result Error (Option ClientAuth)
  pub get_all : Env → Store → Result Error (List ClientAuth)
  pub add : Env → ClientAuth → Store → Result Error Bool × Store
  pub delete : Env → String → Store → Result Error (Unit {0}) × Store
  pub is_writeable : Bool
