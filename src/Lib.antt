-- ===== src/Lib.antt =====
-- passd: a daemon that keeps credentials and lends them to agents for single, approved uses.
--
-- The service (passd/service.py) owns one database. An agent authenticates by a machine key and asks
-- for a credential field or for a registered capability; a human approves, denies or revokes; an
-- approval makes a lease with an expiry and a budget of uses; each use claims one from the budget.
-- Everything private in the database is sealed (passd/crypto.py), and what was approved is bound by
-- keyed versions (passd/authority.py).
--
-- The files and the code:
--   Base, Text, Url     what the source uses of the language and its library: lists, text as lists of
--                       code points, urlsplit, quote and unquote
--   Errors, Numbers     passd/errors.py; an error is its code, with the message of an AuthError, and
--                       `internal` any other exception; an `int` and a `float`
--   Payload, Db         the values that payload columns hold, and the tables of passd/db.py as lists
--                       of rows in the order of insertion; `Service` is PassdService with its tables,
--                       its clock and what it draws from the system
--   Platform, Crypto    AES-GCM, SHA-256, HMAC and the JSON codecs as an instance argument with its
--                       laws; passd/crypto.py. Column, Base64: the text of a sealed column
--   Refs, Authority     passd/refs.py, passd/authority.py
--   Exec                a method: it takes the service, returns or raises, and leaves a service; what
--                       was written before a raise stays written. Moves: relations that every action
--                       keeps; Laws: what holds when an action has returned
--   Agents              authenticate_agent, create_agent, rotate_agent, revoke_agent, list_agents
--   Hosts               _normalize_host, _host_allowed
--   Sealing             _vault_key, _item_key, _item_payload, _capability_payload, _access_payload
--   Vaults, Items       create_vault, list_vaults, find_vault; put_item, list_items, find_item,
--                       resolve_item_ref, _extract_field
--   Capabilities        _normalize_capability_definition, _validate_capability_invocation, and the
--                       registry (Store)
--   Audit               audit, list_audit
--   Access              Filing and Request: request_access, request_capability; Review:
--                       approve_access, deny_access, revoke_access; Claim: _consume_exact_grant,
--                       _consume_capability_grant; Listing: pending_access,
--                       list_authorized_vaults, list_authorized_items. Lease is the life of one
--                       request as a step relation, Table that of all of them, with the relations
--                       that machine accounts can only extend, History that of the service
--   Http, Config        an HTTP exchange; passd/config.py
--   Broker              verify_admin_password, _validate_target, _redact, _execute_http,
--                       invoke_capability; Direct: reveal_secret, broker_http. Its other children
--                       prove what stands behind a request that was sent, and what a response shows
--   Dispatch            the requests and replies of handle; Handle: handle itself. Refused, Guarded,
--                       Strangers and Sessions prove what requests can change, by their credentials
--   Server, Client      passd/server.py, passd/client.py: the lines of one connection
--   Proton, Cli         passd/proton_import.py; passd/cli.py: the request of each command
--   Tests               a concrete platform and concrete rows, and the theorems at work on them
--
-- Conventions. Numbers are natural numbers: a negative lifetime or budget behaves as 0 does, which
-- is refused or raised to the least value in the same way. A timeout is a `float`: not a number,
-- infinite, below zero, or a number of steps of its least positive value. A method reads the clock
-- once. `lower` and `upper` map the letters of ASCII only. A column of JSON holds its value. Loops
-- are recursion on lists, except for that over a connection, whose fuel is more than the number of
-- bytes that arrive: each round reads a byte at least.
--
-- Not modelled: the text of JSON itself, the messages of errors other than those of credentials,
-- values of a type that the code coerces or fails on, audit rows in the plain text of older
-- releases, deletion by foreign keys (no method deletes a row), sockets, threads and signals (a
-- request to `handle` is one step), the reading of arguments, of the environment, of passwords and
-- of an export's file, and the printing of results.
pub mod Base
pub mod Text
pub mod Errors
pub mod Url
pub mod Payload
pub mod Http
pub mod Config
pub mod Broker
pub mod Dispatch
pub mod Server
pub mod Client
pub mod Proton
pub mod Cli
pub mod Platform
pub mod Refs
pub mod Hosts
pub mod Authority
pub mod Numbers
pub mod Crypto
pub mod Db
pub mod Exec
pub mod Agents
pub mod Sealing
pub mod Vaults
pub mod Items
pub mod Capabilities
pub mod Audit
pub mod Access
pub mod Tests
