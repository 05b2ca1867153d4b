-- ===== src/Tests/ClientLoops.antt =====
-- Runs of a client's connection loop, and of the request that it sends.
use rport.Prelude.{
  ℕ, suc, String, true, false, none, some, List, [], ◌∷◌, ◌≡◌, refl, str_eq, if◌then◌else◌,
}
use rport.Text.{has_prefix, has_suffix, contains}
use rport.Result.{Result, ok, err}
use rport.ClientLoop.Dialing.{
  verify_server, try_servers, connect_to_main_or_fallback, Json, send_connection_request,
  closes_connection,
}
use rport.Prelude.{pos}
use rport.ClientLoop.Passes.{
  Backoff, IsBackoff, Config, Round, Loop, retry, acquire, arrive, pass, connection_loop, new_loop,
  disconnect_error,
}
use rport.ClientLoop.Servers.{connect-first}
use rport.ClientLoop.GiveUp.{IsHopeless, connection_loop-ended}
use rport.ClientLoop.Machine.{
  count_from, count, get_virt_info_from_nix_devices_list, virtualization_info_nix, content,
  cpu_info,
}

loops : Unit {0}
unfolding has_prefix has_suffix contains verify_server try_servers connect_to_main_or_fallback
    send_connection_request closes_connection retry acquire arrive pass connection_loop
    disconnect_error count_from count get_virt_info_from_nix_devices_list virtualization_info_nix
    cpu_info
loops = tt

-- A backoff that never pauses.
abbrev counting : Backoff
counting = record {
  State = ℕ;
  new = λ longest. 0;
  attempt = λ n. n;
  duration = λ n. (0, suc n);
  reset = λ n. 0;
}

counting-IsBackoff : IsBackoff counting
counting-IsBackoff = record {
  attempt-new = λ longest. refl;
  attempt-duration = λ n. refl;
  attempt-reset = λ n. refl;
}

abbrev json : Json String
json = record { encoded = ok "{}"; decode = λ bytes. ok [] }

abbrev two_retries : Config
two_retries = record {
  server = "main";
  fallback_servers = "b" ∷ "c" ∷ [];
  max_retry_count = pos 2;
  max_retry_interval = 300;
}

-- Only the server `c` is up.
abbrev connect : String → Result String ℕ
connect server = if str_eq server "c" then ok 7 else err "connection refused"

abbrev refused : Round ℕ
refused = record {
  connect = connect;
  reply = λ conn req. ok (false, "client is already connected: a");
  wait = none;
  switched = none;
  closed = false;
}

abbrev accepted : Round ℕ
accepted = record refused {
  reply = λ conn req. ok (true, "[]");
  wait = some "EOF";
  switched = some 9;
}

abbrev lost : Round ℕ
lost = record refused { reply = λ conn req. ok (true, "[]"); wait = some "reset" }

abbrev after : List (Round ℕ) → Loop counting ℕ
after rounds = connection_loop json two_retries rounds (new_loop counting two_retries)

-- A success starts the count again, and the goroutine's connection waits in the channel.
loop_tests :
    ((after (refused ∷ refused ∷ refused ∷ [])).ended ≡ false)
    × ((after (refused ∷ refused ∷ refused ∷ refused ∷ [])).ended ≡ true)
    × ((after (refused ∷ refused ∷ refused ∷ lost ∷ [])).ended ≡ true)
    × ((after (refused ∷ refused ∷ lost ∷ refused ∷ refused ∷ [])).ended ≡ false)
    × ((after (accepted ∷ [])).switchback ≡ some 9)
    × ((after (accepted ∷ accepted ∷ [])).switching ≡ 0)
    × (closes_connection (false, "client is already connected: a") ≡ true)
    × (verify_server "ab:c" "ab:cd:ef" ≡ ok tt)
unfolding loops
loop_tests = (refl, refl, refl, refl, refl, refl, refl, refl)

machine_tests :
    (virtualization_info_nix (content "x virtio-pci y virtio-pci") ≡ ok ("KVM", "guest"))
    × (virtualization_info_nix (content "vmwgfx vmwgfx") ≡ ok ("unknown", "unknown"))
    × ((cpu_info (ok []) (ok 4)).1 ≡ "")
unfolding loops
machine_tests = (refl, refl, refl)

connect-first_example : connect_to_main_or_fallback connect "main" ("b" ∷ "c" ∷ []) ≡ ok (7, false)
unfolding loops
connect-first_example =
    connect-first connect "main" ("b" ∷ "c" ∷ []) ("main" ∷ "b" ∷ []) "c" [] 7 refl
      (refl, (refl, tt)) refl

refused-IsHopeless : IsHopeless json refused
unfolding loops
refused-IsHopeless = record { refused = λ conn. refl; not_closed = refl }

connection_loop-ended_example : (after (refused ∷ refused ∷ refused ∷ refused ∷ [])).ended ≡ true
unfolding loops
connection_loop-ended_example =
    connection_loop-ended counting counting-IsBackoff json two_retries
      (refused ∷ refused ∷ refused ∷ refused ∷ [])
      (refused-IsHopeless, (refused-IsHopeless, (refused-IsHopeless, (refused-IsHopeless, tt))))
