-- ===== src/Cli/Credentials.antt =====
-- Which operation a command of passd/cli.py asks for, and which credential it sends.
use passd.Base.{false, true, ◌⊎◌, none, some, Option, ◌≡◌}
use passd.Cli.{reason_for, token_for, Command, Environment}
use passd.Dispatch.{op_of, Request, Op}
use passd.Text.{Text}
use passd.Vaults.{truthy}

-- Whose authority a request goes by: the holder's of the master password, what a machine account has
-- of a token and a reason, or the latter if there is a token and the former if not.
pub data Authority : Type 0 where
  human : Authority
  machine either : (token reason : Option Text) → Authority

-- The password and nothing else, or the token and the reason and nothing else.
abbrev pub HasPassword : Environment → Request → Type 0
HasPassword env r =
    (r.admin_password ≡ some env.password) × (r.agent_token ≡ none) × (r.reason ≡ none)

abbrev pub HasToken : (token reason : Option Text) → Request → Type 0
HasToken token reason r = (r.admin_password ≡ none) × (r.agent_token ≡ token) × (r.reason ≡ reason)

abbrev pub Carries : Environment → Authority → Request → Type 0
Carries env human r = HasPassword env r
Carries env (machine token reason) r = HasToken token reason r
Carries env (either token reason) r =
    ((truthy token ≡ true) × HasToken token reason r) ⊎ ((truthy token ≡ false) × HasPassword env r)

-- The operation and the authority of each command.
abbrev pub asked_by : Environment → Command → Op × Authority
asked_by env Command.doctor = (Op.health, machine none none)
asked_by env (Command.vault_list caller) = (Op.vault_list, either (token_for env caller) none)
asked_by env (Command.vault_create name description) = (Op.vault_create, human)
asked_by env (Command.item_list vault caller) = (Op.item_list, either (token_for env caller) none)
asked_by env (Command.put_login args) = (Op.item_put, human)
asked_by env (Command.resolve uri caller) =
    (Op.secret_resolve, either (token_for env caller) (reason_for env caller))
asked_by env (Command.agent_create name scopes hosts expiration) = (Op.agent_create, human)
asked_by env Command.agent_list = (Op.agent_list, human)
asked_by env (Command.agent_rotate agent) = (Op.agent_rotate, human)
asked_by env (Command.agent_revoke agent) = (Op.agent_revoke, human)
asked_by env (Command.agent_monitor agent limit) = (Op.audit_list, human)
asked_by env (Command.capability_list caller) =
    (Op.capability_list, either (token_for env caller) none)
asked_by env (Command.capability_get id) = (Op.capability_get, human)
asked_by env (Command.capability_put args) = (Op.capability_put, human)
asked_by env (Command.capability_request id method path expiration uses caller) =
    (Op.capability_request, machine (token_for env caller) (reason_for env caller))
asked_by env (Command.capability_invoke id method path body caller) =
    (Op.capability_invoke, machine (token_for env caller) (reason_for env caller))
asked_by env (Command.access_request uri capability host expiration uses caller) =
    (Op.access_request, machine (token_for env caller) (reason_for env caller))
asked_by env (Command.access_status request caller) =
    (Op.access_status, machine (token_for env caller) none)
asked_by env (Command.access_pending limit) = (Op.access_pending, human)
asked_by env (Command.access_approve request expiration uses remark) = (Op.access_approve, human)
asked_by env (Command.access_deny request remark) = (Op.access_deny, human)
asked_by env (Command.access_revoke request) = (Op.access_revoke, human)
asked_by env (Command.broker_http args caller) =
    (Op.broker_http, either (token_for env caller) (reason_for env caller))

pub record IsSent (env : Environment) (to : Op × Authority) (r : Request) : Type 0 where
  pub known : op_of r.op ≡ some to.0
  pub carries : Carries env to.1 r
