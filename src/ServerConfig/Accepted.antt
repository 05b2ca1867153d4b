-- ===== src/ServerConfig/Accepted.antt =====
-- server/config.go: what holds of a configuration that the server accepts.
use mathlib.Core.Path.{subst}
use rport.Prelude.{
  ℕ, ◌≤◌, ◌⊎◌, String, Bool, true, false, not, ◌&&◌, ◌||◌, ◌≡◌, refl, arith, ap, sym, ◌∙◌, if_else,
  either, Bool-cases, inl, inr, str_eq, leb, ◌==◌, if◌then◌else◌,
}
use Prim.Native.String.{◌++◌ as concat}
use rport.Result.{Result, ok, err, and_then_ok, map_err, map_err_ok, value_or, is_ok}
use rport.Ports.{IsMapSet}
use rport.Ports.Ranges.{IsBuilding, try_parse_port_ranges, max_uint16}
use rport.Ports.Allowed.{some_names, contains-try_parse_port_ranges}
use rport.ClientConfig.{require_data_dir}
use rport.Prelude.{ℤ, pos, negsuc}
use rport.ServerConfig.{
  Config, parse_and_validate_url, parse_and_validate_ports, parse_and_validate_api,
  parse_and_validate_config,
}
use rport.ServerConfig.Settings.{
  RawConfig, ServerConfig, DatabaseConfig, World, is_set, require_kept_time,
  parse_and_validate_client_auth, parse_and_validate_database,
}

-- A port that one of the used ranges names and no excluded one does.
abbrev pub is_offered : World → ServerConfig → ℕ → Bool
is_offered w c n =
    leb n max_uint16
    && some_names w.atoi n c.used_ports_raw
    && not (some_names w.atoi n c.excluded_ports_raw)

abbrev pub exactly_one : Bool → Bool → Bool → Bool
exactly_one a b c = (a && not b && not c) || (not a && b && not c) || (not a && not b && c)

-- A table needs a database.
abbrev pub has_driver : String → String → Bool
has_driver table driver = not (is_set table) || is_set driver

kept_unless :
    {A : Type 0} (b : Bool) (a a' : A) (e : String)
    → (if b then err e else ok a) ≡ ok a'
    → (a ≡ a') × (b ≡ false)
kept_unless true a a' e done = absurd (ground (arith, ap is_ok done))
kept_unless false a a' e done = (ap (value_or a) done, refl)

module _ (w : World) where
  -- No time, or a second up to a week, in nanoseconds.
  abbrev pub IsKeptTime : ℤ → Type 0
  IsKeptTime (pos n) = (n ≡ 0) ⊎ ((1000000000 ≤ n) × (n ≤ 604800000000000))
  IsKeptTime (negsuc n) = ⊥

  -- `Cardinality` is 0 only for a set without elements.
  abbrev pub CountsElements : Type 0
  CountsElements =
      (s : w.set.Set) → (w.cardinality s == 0) ≡ false → (n : ℕ) × (w.set.contains s n ≡ true)

  pub record IsAccepted (raw : RawConfig) (c : Config w) : Type 0 where
    pub ports : (n : ℕ) → w.set.contains c.allowed_ports n ≡ is_offered w raw.server n
    pub some_port : (n : ℕ) × (is_offered w raw.server n ≡ true)
    pub kept : IsKeptTime raw.server.keep_lost_clients
    pub one_auth :
        exactly_one
          (is_set raw.server.auth)
          (is_set raw.server.auth_file)
          (is_set raw.server.auth_table)
        ≡ true
    pub driver : has_driver raw.server.auth_table c.driver ≡ true

  auth_lem :
      (raw : RawConfig) (pair : String × String)
      → parse_and_validate_client_auth raw ≡ ok pair
      → (exactly_one
            (is_set raw.server.auth)
            (is_set raw.server.auth_file)
            (is_set raw.server.auth_table)
          ≡ true)
        × ((is_set raw.server.auth_table && str_eq raw.database.db_type "") ≡ false)
  unfolding parse_and_validate_client_auth
  auth_lem raw pair done = (ground (arith, ap is_ok done), ground (arith, ap is_ok done))

  abbrev driver_of : Result String (String × String) → Bool
  driver_of (ok source) = is_set source.0
  driver_of (err e) = true

  database_lem :
      (d : DatabaseConfig) (source : String × String)
      → parse_and_validate_database d ≡ ok source
      → str_eq d.db_type "" ≡ false
      → is_set source.0 ≡ true
  unfolding parse_and_validate_database
  database_lem d source done named =
      let P : Result String (String × String) → Type 0 = λ r. driver_of r ≡ true in
      ap driver_of (sym done)
      ∙ if_else P (str_eq d.db_type "") _ _ named (
          either P (str_eq d.db_type "mysql") _ _ refl
            (either P (str_eq d.db_type "sqlite") _ _ refl refl))

  driver_lem :
      (table : String) (d : DatabaseConfig) (source : String × String)
      → parse_and_validate_database d ≡ ok source
      → (is_set table && str_eq d.db_type "") ≡ false
      → has_driver table source.0 ≡ true
  driver_lem table d source done typed = elim (Bool-cases (str_eq d.db_type "")) [
    | inl missing ↦ ground (arith, missing, typed)
    | inr named ↦ ground (arith, database_lem d source done named)
  ]

  kept_lem : (n : ℤ) (u : Unit {0}) → require_kept_time n ≡ ok u → IsKeptTime n
  kept_lem (pos n) u done = ground (arith, ap is_ok done)
  kept_lem (negsuc n) u done = absurd (ground (arith, ap is_ok done))

  module _ (laws : IsMapSet w.set) (building : IsBuilding w.set w.building)
      (counts : CountsElements) where
    ports_lem :
        (c : ServerConfig) (allowed : w.set.Set)
        → parse_and_validate_ports w c ≡ ok allowed
        → ((n : ℕ) → w.set.contains allowed n ≡ is_offered w c n)
          × ((w.cardinality allowed == 0) ≡ false)
    unfolding parse_and_validate_ports
    ports_lem c allowed done =
        let parse = try_parse_port_ranges w.atoi w.set w.building in
        let (used, known_used, after_used) =
          and_then_ok (map_err (λ e. "can't parse 'used_ports'") (parse c.used_ports_raw)) _ allowed
            done in
        let (excluded, known_excluded, last) =
          and_then_ok (map_err (λ e. "can't parse 'excluded_ports'") (parse c.excluded_ports_raw)) _
            allowed after_used in
        let (same, some_port) =
          kept_unless (w.cardinality (w.set.difference used excluded) == 0)
            (w.set.difference used excluded) allowed
            "at least one port should be available for port assignment" last in
        let used_ports =
          map_err_ok (λ e. "can't parse 'used_ports'") (parse c.used_ports_raw) used known_used in
        let excluded_ports =
          map_err_ok (λ e. "can't parse 'excluded_ports'") (parse c.excluded_ports_raw) excluded
            known_excluded in
        (
          λ n.
              ap (λ set. w.set.contains set n) (sym same)
              ∙ laws.contains_difference used excluded n
              ∙ ground (
                arith,
                contains-try_parse_port_ranges w.atoi w.set w.building building c.used_ports_raw
                    used n used_ports,
                contains-try_parse_port_ranges w.atoi w.set w.building building c.excluded_ports_raw
                    excluded n excluded_ports,
              ),
          ap (λ set. w.cardinality set == 0) (sym same) ∙ some_port,
        )

    -- Of a configuration that the server accepts: the ports that it hands out are those up to 65535 that a
    -- used range names and no excluded one does, and there is such a port; lost clients are kept for no time
    -- or for between a second and a week; exactly one of the three ways to authenticate clients is
    -- chosen, and a table comes with a database.
    pub parse_and_validate_config-IsAccepted :
        (raw : RawConfig) (c : Config w) → parse_and_validate_config w raw ≡ ok c → IsAccepted raw c
    unfolding parse_and_validate_config
    parse_and_validate_config-IsAccepted raw c done =
        let (url, known_url, after_url) =
          and_then_ok (parse_and_validate_url w raw.server) _ c done in
        let (ports, known_ports, after_ports) =
          and_then_ok (parse_and_validate_ports w raw.server) _ c after_url in
        let (u, known_dir, after_dir) =
          and_then_ok (require_data_dir raw.server.data_dir) _ c after_ports in
        let (v, known_time, after_time) =
          and_then_ok (require_kept_time raw.server.keep_lost_clients) _ c after_dir in
        let (pair, known_pair, after_pair) =
          and_then_ok (parse_and_validate_client_auth raw) _ c after_time in
        let (api, known_api, after_api) =
          and_then_ok (map_err (concat "API: ") (parse_and_validate_api w raw)) _ c after_pair in
        let (source, known_source, last) =
          and_then_ok (parse_and_validate_database raw.database) _ c after_api in
        let (offered, not_empty) = ports_lem raw.server ports known_ports in
        let (port, contained) = counts ports not_empty in
        let (one_auth, with_type) = auth_lem raw pair known_pair in
        subst (λ (r : Result String (Config w)). IsAccepted raw (value_or c r)) last
          (record {
            ports = offered;
            some_port = (port, sym (offered port) ∙ contained);
            kept = kept_lem raw.server.keep_lost_clients v known_time;
            one_auth = one_auth;
            driver = driver_lem raw.server.auth_table raw.database source known_source with_type;
          })
