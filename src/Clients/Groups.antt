-- ===== src/Clients/Groups.antt =====
-- server/cgroups/group.go: client groups and the patterns that their parameters hold. The column's
-- `Scan` and `Value`, which only call the JSON library, are left out. `strings.ToLower` is a parameter.
use Prim.Native.String.{len, slice}
use text.Mathlib.Text.{starts_with, find?}
use rport.Prelude.{
  ℕ, ◌+◌, String, Bool, true, false, ◌&&◌, ◌||◌, Option, none, some, List, [], ◌∷◌, str_eq,
  if◌then◌else◌, is_none, is_empty,
}
use rport.Text.{split, contains_rune, has_suffix}

abbrev pub ParamValues : Type 0
ParamValues = Option (List String)

pub record ClientParams : Type 0 where
  pub client_id : ParamValues
  pub name : ParamValues
  pub os : ParamValues
  pub os_arch : ParamValues
  pub os_family : ParamValues
  pub os_kernel : ParamValues
  pub hostname : ParamValues
  pub ipv4 : ParamValues
  pub ipv6 : ParamValues
  pub tag : ParamValues
  pub version : ParamValues
  pub address : ParamValues
  pub client_auth_id : ParamValues

pub record ClientGroup : Type 0 where
  pub id : String
  pub description : String
  pub params : Option ClientParams
  pub client_ids : List String

-- The loop of `matches`: each part is looked for in what the parts before it left.
unfoldable pub in_order : List String → String → Bool
in_order [] value = true
in_order (part ∷ parts) value = elim (find? value part) [
  | none ↦ false
  | some i ↦ in_order parts (slice value (i + len part) (len value))
]

abbrev pub head : List String → String
head [] = ""
head (p ∷ ps) = p

abbrev pub last : List String → String
last [] = ""
last (p ∷ []) = p
last (p ∷ q ∷ ps) = last (q ∷ ps)

abbrev pub star : ℕ
star = 42

-- `matches`, once both texts are in lower case.
unfoldable pub matches_lower : String → String → Bool
unfolding split contains_rune has_suffix in_order
matches_lower str value =
    let parts = split star str in
    if contains_rune star str
    then starts_with value (head parts) && has_suffix value (last parts) && in_order parts value
    else str_eq str value

module _ (to_lower : String → String) where
  abbrev pub matches : String → String → Bool
  matches p value = matches_lower (to_lower p) (to_lower value)

  abbrev pub some_value : String → List String → Bool
  some_value p [] = false
  some_value p (v ∷ vs) = matches p v || some_value p vs

  abbrev pub some_param : List String → List String → Bool
  some_param [] values = false
  some_param (p ∷ ps) values = some_value p values || some_param ps values

  -- `MatchesOneOf`
  abbrev pub matches_one_of : ParamValues → List String → Bool
  matches_one_of none values = true
  matches_one_of (some ps) values = (is_empty ps && is_empty values) || some_param ps values

-- `HasNoParams` of a group's parameters that are not nil
unfoldable pub all_nil : ClientParams → Bool
all_nil p =
    is_none p.client_id
    && is_none p.name
    && is_none p.os
    && is_none p.os_arch
    && is_none p.os_family
    && is_none p.os_kernel
    && is_none p.hostname
    && is_none p.ipv4
    && is_none p.ipv6
    && is_none p.tag
    && is_none p.version
    && is_none p.address
    && is_none p.client_auth_id
