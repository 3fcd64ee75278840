-- ===== src/Tests/Served.antt =====
-- The theorems on requests to `handle`, each applied to concrete requests.
use passd.Tests.World.{toy}
use passd.Base.{inl, some, [], ◌∷◌, ◌≢◌, none, Among, ◌≡◌, refl}
use passd.Db.{denied, AccessRow, Service}
use passd.Dispatch.{no_params, Op, Request, op_of}
use passd.Errors.{wrong_password, needs_password, invalid_token, auth_error, err, Error}
use passd.Access.Table.{TableGrows, AllWithinBudget}
use passd.Broker.{verify_admin_password}
use passd.Dispatch.Refused.{handle_refused, IsUnauthenticated}
use passd.Dispatch.Handle.{handle}
use passd.Tests.Story.{pending_row, service_with}
use passd.Text.{codes}
use passd.Agents.{authenticate_agent}
use passd.Dispatch.Sessions.{session-AllWithinBudget, session-closed, session}
use passd.Dispatch.Guarded.{handle_guarded}
use passd.Dispatch.Strangers.{session-NothingGranted}
use passd.Access.Table.Granting.{NothingGranted}

-- A request for a secret, with a token of another secret and a wrong password.
abbrev pub stranger : Request
stranger = record {
  op = codes "secret.resolve";
  params = record no_params { uri = some (codes "pass://v/i/t") };
  admin_password = some (codes "wrong");
  agent_token = some (codes "pda_b.x");
  reason = some (codes "d");
}

abbrev empty_house : Service
empty_house = record (service_with []) { items = []; vaults = [] }

abbrev pub asking : Service
asking = service_with (pending_row ∷ [])

stranger_here : IsUnauthenticated invalid_token wrong_password stranger asking
unfolding authenticate_agent passd.Exec.◌>>=◌ passd.Agents.parse_token passd.Text.◌==◌
    verify_admin_password
stranger_here = record { no_agent = not_here; no_admin = wrong_here }
  where
    not_here :
        authenticate_agent (some (codes "pda_b.x")) asking
        ≡ (err (auth_error invalid_token), asking)
    not_here = refl

    wrong_here :
        verify_admin_password (some (codes "wrong")) asking
        ≡ (err (auth_error wrong_password), asking)
    wrong_here = refl

stranger_there : IsUnauthenticated invalid_token wrong_password stranger empty_house
unfolding authenticate_agent passd.Exec.◌>>=◌ passd.Agents.parse_token passd.Text.◌==◌
    verify_admin_password
stranger_there = record { no_agent = not_there; no_admin = wrong_there }
  where
    not_there :
        authenticate_agent (some (codes "pda_b.x")) empty_house
        ≡ (err (auth_error invalid_token), empty_house)
    not_there = refl

    wrong_there :
        verify_admin_password (some (codes "wrong")) empty_house
        ≡ (err (auth_error wrong_password), empty_house)
    wrong_there = refl

resolves : op_of stranger.op ≡ some Op.secret_resolve
unfolding op_of passd.Text.◌==◌
resolves = refl

not_health : op_of stranger.op ≢ some Op.health
not_health h = absurd (cc (h, resolves))

handle_refused_example :
    (code : Error) × (handle stranger asking ≡ (err code, asking))
    × (handle stranger empty_house ≡ (err code, empty_house))
handle_refused_example =
    handle_refused invalid_token wrong_password stranger asking empty_house stranger_here
      stranger_there not_health

-- A machine account's request for a lease, with no password.
abbrev asks : Request
asks = record {
  op = codes "access.request";
  params = record no_params {
    uri = some (codes "pass://v/i/t");
    target_host = some (codes "h");
    max_uses = some 2;
  };
  admin_password = none;
  agent_token = some (codes "pda_b.k");
  reason = some (codes "d");
}

no_password :
    verify_admin_password asks.admin_password asking ≡ (err (auth_error needs_password), asking)
unfolding verify_admin_password passd.Exec.◌>>=◌
no_password = refl

handle_guarded_example : TableGrows asking (handle asks asking).1
handle_guarded_example = handle_guarded asks asking no_password

session-NothingGranted_example :
    NothingGranted asking (session ((5, asks) ∷ (60, stranger) ∷ []) asking)
session-NothingGranted_example =
    session-NothingGranted ((5, asks) ∷ (60, stranger) ∷ []) asking
      ((needs_password, no_password), ((wrong_password, stranger_here.no_admin), tt))

-- The administrator approves what was asked for.
abbrev approves : Request
approves = record {
  op = codes "access.approve";
  params = record no_params { request = some (codes "q") };
  admin_password = some (codes "r");
  agent_token = none;
  reason = none;
}

session-AllWithinBudget_example :
    AllWithinBudget (session ((5, asks) ∷ (60, approves) ∷ []) asking).access_requests
session-AllWithinBudget_example =
    session-AllWithinBudget ((5, asks) ∷ (60, approves) ∷ []) asking (refl, tt)

abbrev denied_row : AccessRow
denied_row = record pending_row { status = denied }

session-closed_example :
    Among denied_row
      (session ((5, asks) ∷ (60, approves) ∷ []) (service_with (denied_row ∷ []))).access_requests
session-closed_example =
    session-closed ((5, asks) ∷ (60, approves) ∷ []) (service_with (denied_row ∷ [])) denied_row
      (inl refl) refl
