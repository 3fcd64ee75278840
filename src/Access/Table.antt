-- ===== src/Access/Table.antt =====
-- How the table of requests may change: every row by steps of a lease, and new rows at the end.
pub mod Steps
pub mod Operations
pub mod Claims
pub mod Granting
use passd.Base.{
  ℕ, ◌∙◌, refl, false, if◌then◌else◌, [], update_where, ◌++◌, ◌∷◌, none, true, Bool, List, ◌≡◌, All,
}
use passd.Db.{AuditRow, AccessRow, pending, Service}
use passd.Exec.Moves.{Order}
use passd.Access.Lease.{Reach-IsWithinBudget, Reach, here, next, Step, Reach-trans, IsWithinBudget}

-- A row that a request has just written, and a row that was new once.
pub record IsNew (row : AccessRow) : Type 0 where
  pub status : row.status ≡ pending
  pub uses : row.uses ≡ 0
  pub max_uses : row.max_uses ≡ none
  pub expires_at : row.expires_at ≡ none
  pub item_id : row.item_id ≡ none

abbrev pub Born : AccessRow → Type 0
Born row = (first : AccessRow) × IsNew first × Reach first row

abbrev pub Grows : List AccessRow → List AccessRow → Type 0
Grows [] ys = All Born ys
Grows (x ∷ xs) [] = ⊥
Grows (x ∷ xs) (y ∷ ys) = Reach x y × Grows xs ys

pub Grows-refl : (xs : List AccessRow) → Grows xs xs
Grows-refl [] = tt
Grows-refl (x ∷ xs) = (here, Grows-refl xs)

Born-Grows : (ys zs : List AccessRow) → All Born ys → Grows ys zs → All Born zs
Born-Grows [] zs h g = g
Born-Grows (y ∷ ys) [] h g = absurd g
Born-Grows (y ∷ ys) (z ∷ zs) ((first, new, r), h) (q, g) =
    ((first, new, Reach-trans r q), Born-Grows ys zs h g)

pub Grows-trans : (xs ys zs : List AccessRow) → Grows xs ys → Grows ys zs → Grows xs zs
Grows-trans [] ys zs h g = Born-Grows ys zs h g
Grows-trans (x ∷ xs) [] zs h g = absurd h
Grows-trans (x ∷ xs) (y ∷ ys) [] h g = absurd g
Grows-trans (x ∷ xs) (y ∷ ys) (z ∷ zs) (r, h) (q, g) = (Reach-trans r q, Grows-trans xs ys zs h g)

pub Grows-append : (xs : List AccessRow) (row : AccessRow) → IsNew row → Grows xs (xs ++ row ∷ [])
Grows-append [] row new = ((row, new, here), tt)
Grows-append (x ∷ xs) row new = (here, Grows-append xs row new)

-- An UPDATE whose condition justifies one step.
pub Grows-update_where :
    (p : AccessRow → Bool) (f : AccessRow → AccessRow) (xs : List AccessRow)
    → ((x : AccessRow) → p x ≡ true → Step x (f x))
    → Grows xs (update_where p f xs)
Grows-update_where p f [] step = tt
Grows-update_where p f (x ∷ xs) step = (one (p x) (step x), Grows-update_where p f xs step)
  where
    one : (b : Bool) → (b ≡ true → Step x (f x)) → Reach x (if b then f x else x)
    one true s = next here (s refl)
    one false s = here

-- The budget of every row.
abbrev pub AllWithinBudget : List AccessRow → Type 0
AllWithinBudget = All IsWithinBudget

IsNew-within : (row : AccessRow) → IsNew row → IsWithinBudget row
IsNew-within row new = rw (new.max_uses, new.uses)

Born-within : (ys : List AccessRow) → All Born ys → AllWithinBudget ys
Born-within [] h = tt
Born-within (y ∷ ys) ((first, new, r), h) =
    (Reach-IsWithinBudget r (IsNew-within first new), Born-within ys h)

pub Grows-AllWithinBudget :
    (xs ys : List AccessRow) → Grows xs ys → AllWithinBudget xs → AllWithinBudget ys
Grows-AllWithinBudget [] ys g h = Born-within ys g
Grows-AllWithinBudget (x ∷ xs) [] g h = absurd g
Grows-AllWithinBudget (x ∷ xs) (y ∷ ys) (r, g) (w, h) =
    (Reach-IsWithinBudget r w, Grows-AllWithinBudget xs ys g h)

-- All that an operation on requests leaves alone.
pub record SameRest (s t : Service) : Type 0 where
  pub root_key : t.root_key ≡ s.root_key
  pub clock : t.clock ≡ s.clock
  pub vaults : t.vaults ≡ s.vaults
  pub items : t.items ≡ s.items
  pub capabilities : t.capabilities ≡ s.capabilities
  pub agents : t.agents ≡ s.agents
  pub config : t.config ≡ s.config
  pub allow_private_broker_targets : t.allow_private_broker_targets ≡ s.allow_private_broker_targets
  pub entropy : t.entropy ≡ s.entropy

pub SameRest-trans : (s t u : Service) → SameRest s t → SameRest t u → SameRest s u
SameRest-trans s t u a b = record {
  root_key = b.root_key ∙ a.root_key;
  clock = b.clock ∙ a.clock;
  vaults = b.vaults ∙ a.vaults;
  items = b.items ∙ a.items;
  capabilities = b.capabilities ∙ a.capabilities;
  agents = b.agents ∙ a.agents;
  config = b.config ∙ a.config;
  allow_private_broker_targets = b.allow_private_broker_targets ∙ a.allow_private_broker_targets;
  entropy = b.entropy ∙ a.entropy;
}

-- The table of requests grows, from one state of the service to another, and the rest stays.
pub record TableGrows (s t : Service) : Type 0 where
  pub grows : Grows s.access_requests t.access_requests
  pub rest : SameRest s t

-- The rest is the same by computation where only requests, audit rows and draws change.
pub changed :
    (s : Service) (rows : List AccessRow) (audits : List AuditRow) (n : ℕ)
    → Grows s.access_requests rows
    → TableGrows s (record s { access_requests = rows; audits = audits; drawn = n })
changed s rows audits n g = record {
  grows = g;
  rest = record {
    root_key = refl;
    clock = refl;
    vaults = refl;
    items = refl;
    capabilities = refl;
    agents = refl;
    config = refl;
    allow_private_broker_targets = refl;
    entropy = refl;
  };
}

pub table_order : Order TableGrows
table_order = record {
  here = λ s. changed s s.access_requests s.audits s.drawn (Grows-refl s.access_requests);
  after = λ s t u h g. record {
    grows = Grows-trans s.access_requests t.access_requests u.access_requests h.grows g.grows;
    rest = SameRest-trans s t u h.rest g.rest;
  };
  drawing = λ s n. changed s s.access_requests s.audits n (Grows-refl s.access_requests);
}
