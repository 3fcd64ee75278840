-- ===== src/Tests/Commands.antt =====
-- The theorem on the commands, applied to a concrete one.
use passd.Base.{none, some, Option, ◌≡◌, refl}
use passd.Cli.{Command, Environment}
use passd.Cli.Requests.{request_of}
use passd.Text.{codes}
use passd.Dispatch.{Request}
use passd.Tests.Served.{stranger}

abbrev shell : Environment
shell = record { token = some (codes "pda_b.k"); reason = none; password = codes "r" }

-- An agent asks for a lease, for two hours.
abbrev asks_lease : Command
asks_lease =
    Command.access_request (codes "pass://v/i/t") (codes "secret.use") (some (codes "h"))
      (codes " 2H") 1 (record { token = none; reason = some (codes "d") })

abbrev request_or : Option Request → Request
request_or none = stranger
request_or (some r) = r

two_hours : (request_or (request_of shell asks_lease)).params.ttl_seconds ≡ some 7200
unfolding request_of
two_hours = refl
