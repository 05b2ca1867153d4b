-- ===== src/Lib.antt =====
-- rport, the remote access server and client: a verification of its core logic.
--
-- The server accepts SSH connections of clients and opens tunnels through them. It keeps its clients in
-- a repository, its API users in a file or a database, and secrets in a vault. A client runs commands for
-- the server. The modules follow these parts:
--
--  Vault     server/vault: `Manager.init`, `unlock`, `lock`, `store`, `get_one`, `delete` and `status` are
--            the methods of manager.go, `Pass` is pass.go, `Model` is model.go and validate.go, and `Sqlite` is what
--            the statements of sqlite.go do to the tables. `Steps` is the relation of any sequence of
--            calls, and `Unlocking` says which password opens the vault after them.
--  Enc       share/enc/aes.go, over AES-GCM, SHA-256, base64 and the random source as the record `Crypto`
--            of operations and the record `IsCrypto` of their laws.
--  Security  share/security/banlist.go: `BanList.History` says what a ban list answers by the history of
--            attempts alone.
--  Users     server/api/users: the users file (`File`), its cache and its provider (`FileAdapter`), and the
--            service over any provider (`Service`). `Tables` and `Database` are database.go, by what
--            each statement does to the tables and which statements the database refuses;
--            `Transactions` says what a transaction comes to; `Atomic`, `Frame` and `Stored` hold
--            proofs, over the lemmas of `Rows`, `Updated` and `Refined`.
--  Clients   server/clients, server/cgroups and server/client_service.go: `Model` is client.go, `Groups`
--            is group.go, `Repository` is cr.go, `Acl` is tunnel_acl.go, `Service` and `Start` are
--            client_service.go, and `Reestablish` is the function of server/client_listener.go that chooses
--            the tunnels of a client that comes back. `Tunnels` is the rest of tunnels and groups,
--            and `Requests` the handlers of server/api.go that start and end a tunnel. `Asked`,
--            `Access`, `Lifecycle`, `Obsolete`, `Deletion`, `Refusal` and `Granting` hold proofs.
--  Login     the API's login: server/api_session.go, bearer_auth.go and 2fa_auth.go, and the parts of
--            server/api_listener.go and api.go that authenticate. `Lifetime` is `parseTokenLifetime` with Go's
--            wrap-around, `Credentials` is what makes a request an authorized one, `Handlers` holds the
--            middlewares and handlers. `Steps` is the relation of any sequence of requests; `Admission`,
--            `Preserved`, `Keyed`, `Lockout`, `Logout` and `SecondFactor` hold proofs.
--  Remote    share/remote.go; `Decode` is its parser, and `WellFormed` says what it accepts.
--  Ports     server/ports/port_distributor.go; `Draws` is the relation of calls in a row. `Ranges` is
--            port_range.go, and `Allowed` says which ports it allows.
--  Validation  server/validation, with the wrap-around of Go's products.
--  Jobs      server/api.go: `Requests` is `handlePostMultiClientCommand` and `getOrderedClients`, `Execution`
--            is `executeMultiClientJob` and `createAndRunJob`. `Targets` and `Attempts` hold proofs.
--  ClientAuth  server/clientsauth, `authUser` and `getCID` of server/client_listener.go and the handlers of
--            client credentials in server/api.go: `File` and `Cache` are the providers, `Connecting` is what a
--            connection passes, `Handlers` creates and deletes. `Agreement`, `Opening` and `Unbound` hold
--            proofs.
--  Commands  client/exec.go: the rules for commands and the buffer of an output. `Running` is the handler of
--            commands as a step relation: its part before the lock and its part under the lock are functions,
--            and a goroutine that observes goes through three states. `Exclusive` and `Release` hold proofs.
--  ClientLoop  client/client.go: `Dialing` finds a server, `Passes` is `connectionLoop`, one pass of its
--            loop after the other, `Machine` and `Report` are what a client tells of its machine, from
--            client/system_info.go and client/virt_info_provider.go too. `Servers`, `Counting` and `GiveUp` hold proofs.
--  ClientConfig  client/config.go; `Usable` says what an accepted configuration is.
--  ServerConfig  server/config.go, its first checks in `Settings`; `Accepted` says what an accepted configuration is.
--  CommandLibrary  server/api/command: the manager, its validation and its table. `Answers` holds a proof.
--  Query     share/query: the options of a request, their validation (`Checks`) and their SQL (`Sql`).
--            `Placeholders` and `Supported` hold proofs.
--  Scripts   server/script: the manager, its validation, and what the statements of sqlite.go do to the
--            table; `Changes` holds the proof about an update.
--  Text, Dict, Result, Exec, Prelude
--            what the parts share: Go's strings, maps and errors, methods that change a state and may fail,
--            and the library's names.
--  Tests     runs at concrete inputs.
--
-- How the parts meet: the vault encrypts with Enc. A multi-client job asks Clients for the clients
-- and whether the user may use them; each client runs its command by Commands. ClientAuth deletes
-- the clients of deleted credentials from Repository. Login asks Security whether a user is banned
-- and tells it of failures; it asks Users for the user. The client service draws ports from Ports,
-- asks Reestablish for old tunnels, parses access lists with Acl, and saves to Repository; it asks
-- Users for an administrator's group.
--
-- A method that changes an object and may fail is a function of the type `Exec E S A`: it returns
-- the result or the error beside the object as the method left it, also where the method failed
-- halfway. Each call and each request runs to its end before the next one starts. Where the
-- program's lock covers less than that, as in the vault and for the API's sessions, calls that
-- overlap may do more than the model says; only `Commands.Running` models interleavings. The answers
-- of the world are arguments: the clock, the random source, faults of the database and of the file
-- system, the busy ports, what the network says. They are records named `Env`, or parameters with a
-- record of laws where a package outside the repository is called: `Crypto` and `IsCrypto`, `MapSet`
-- and `IsMapSet` (golang-set), `Net` and `Strconv` (Go's packages net and strconv). The provider of
-- the client repository is the parameter `ClientProvider`, and that of the user service is
-- `Users.Service.Provider`. `Login.Model.Packages` stands for the packages jwt, bcrypt, strings and
-- strconv, `ClientLoop.Passes.Backoff` for the package backoff, and `ClientLoop.Dialing.Network` for
-- websockets and SSH. No definition runs on fuel: every loop goes over a list or a text, and the
-- connection loop of a client over the list of what the world does in each pass. Numbers are natural
-- numbers; the counters of the source stay far below the width of its integers and are not cut off,
-- while the durations that `Login.Lifetime` and `Validation` compute wrap at 64 bits. Visiting a Go
-- map has no fixed order; here it is the order of the entries.
--
-- A struct that the program shares by pointer is a value here. Where a field of a shared client is assigned,
-- `assign` changes every entry of the map with the same address.
--
-- Not modelled: the other HTTP handlers, SSH and websocket traffic, the traffic of tunnels,
-- the settings of SMTP and Pushover, logging, the handlers of single commands and of scripts, the SQL provider of client credentials, and
-- generated code. The log lines within modelled functions are left out.
pub mod ClientAuth
pub mod ClientConfig
pub mod ClientLoop
pub mod Clients
pub mod CommandLibrary
pub mod Commands
pub mod Dict
pub mod Enc
pub mod Exec
pub mod Jobs
pub mod Login
pub mod Ports
pub mod Prelude
pub mod Query
pub mod Remote
pub mod Result
pub mod Scripts
pub mod Security
pub mod ServerConfig
mod Tests
pub mod Text
pub mod Users
pub mod Validation
pub mod Vault
