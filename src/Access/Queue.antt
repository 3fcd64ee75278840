-- ===== src/Access/Queue.antt =====
-- The bound on an agent's queue of pending requests in `request_access` and `request_capability`.
use passd.Base.{
  none, leb, some, Option, sym, inr, inl, any, ◌≤◌, Bool-cases, ◌<◌, true, ◌&&◌, refl, ◌⊎◌,
  if◌then◌else◌, [], ◌∙◌, ◌+◌, ◌∷◌, ◌≡◌, ◌++◌, filter, order_by, insert_by, length, ℕ, List, Bool,
  arith,
}
use passd.Platform.{Platform}
use passd.Access.Request.{
  find_duplicate, digested, file_request, is_pending, new_request, insert_request, pending_of,
}
use passd.Text.{codes, Text}
use passd.Db.{AgentRow, AccessRow, Service}
use passd.Exec.{continue, ◌>>=◌}
use passd.Access.Filing.{Filing}
use passd.Access.{access_has_id, created_le, of_agent}
use passd.Agents.{without_dashes}
use passd.Text.Laws.{eq_iff, eq_refl}
use passd.Crypto.{seal_json}
use passd.Errors.{err, ok, Result}
use mathlib.Core.Path.{subst}
use passd.Sealing.{access_aad}

length-insert_by :
    {A : Type 0} (le : A → A → Bool) (x : A) (xs : List A)
    → length (insert_by le x xs) ≡ length xs + 1
length-insert_by le x [] = refl
length-insert_by le x (y ∷ ys) = ground (arith, length-insert_by le x ys)

length-order_by :
    {A : Type 0} (le : A → A → Bool) (xs : List A) → length (order_by le xs) ≡ length xs
length-order_by le [] = refl
length-order_by le (x ∷ xs) =
    omega (arith, length-insert_by le x (order_by le xs), length-order_by le xs)

length-filter-append :
    {A : Type 0} (p : A → Bool) (xs : List A) (y : A)
    → length (filter p (xs ++ y ∷ []))
      ≡ (if p y then length (filter p xs) + 1 else length (filter p xs))
length-filter-append p [] y = ground arith
length-filter-append p (x ∷ xs) y = ground (arith, length-filter-append p xs y)

-- How many requests of this agent wait for a decision.
abbrev pub waiting_count : Text → Service → ℕ
waiting_count agent_id s = length (pending_of agent_id s.access_requests)

waiting-append :
    (id : Text) (rows : List AccessRow) (row : AccessRow)
    → length (pending_of id (rows ++ row ∷ [])) ≡ (
        if of_agent id row && is_pending row
        then length (pending_of id rows) + 1
        else length (pending_of id rows))
unfolding pending_of
waiting-append id rows row =
    length-order_by created_le _
    ∙ length-filter-append (λ r. of_agent id r && is_pending r) rows row
    ∙ rw (length-order_by created_le (filter (λ r. of_agent id r && is_pending r) rows)) refl

module _ ⦃p : Platform⦄ where
  -- What `insert_request` does to the table: nothing, or one more row of this agent.
  insert_request_adds :
      (agent : AgentRow) (filing : Filing) (s : Service)
      → ((insert_request agent filing s).1.access_requests ≡ s.access_requests)
        ⊎ ((row : AccessRow) × (of_agent agent.id row ≡ true)
            × ((insert_request agent filing s).1.access_requests ≡ s.access_requests ++ row ∷ []))
  unfolding insert_request ◌>>=◌ new_request
  insert_request_adds agent filing s =
      elim (Bool-cases (
        any (access_has_id (codes "req_" ++ without_dashes (s.entropy s.drawn)))
          s.access_requests)) [
            | inl taken ↦ inl (rw taken refl)
            | inr free ↦
                let id = codes "req_" ++ without_dashes (s.entropy s.drawn) in
                let sealed =
                  seal_json p.access_codec (s.entropy (s.drawn + 1)) s.root_key
                    (digested id agent.id filing) (access_aad id) in
                inr (new_request id agent.id filing sealed s.clock, eq_refl agent.id, rw free refl)
          ]

  -- A queue with room stays within its bound.
  insert_request_count :
      (agent : AgentRow) (filing : Filing) (s : Service) (id : Text)
      → waiting_count agent.id s < 32
      → waiting_count id s ≤ 32
      → waiting_count id (insert_request agent filing s).1 ≤ 32
  insert_request_count agent filing s id room h = elim (insert_request_adds agent filing s) [
    | inl same ↦ subst (λ rows. length (pending_of id rows) ≤ 32) (sym same) h
    | inr (row, own, added) ↦
        subst (λ rows. length (pending_of id rows) ≤ 32) (sym added)
          (subst (λ n. n ≤ 32) (sym (waiting-append id s.access_requests row))
            (elim (Bool-cases (of_agent id row)) [
              | inl its ↦
                  let e : id ≡ agent.id =
                    sym ((eq_iff row.agent_id id).0 its) ∙ (eq_iff row.agent_id agent.id).0 own in
                  let less : waiting_count id s < 32 =
                    subst (λ i. waiting_count i s < 32) (sym e) room in
                  ground arith
              | inr other ↦ ground arith
            ]))
  ]

  -- Filing a request keeps every agent's queue within its bound, whatever comes of it.
  pub file_request-bounded :
      (agent : AgentRow) (filing : Filing) (s : Service) (id : Text)
      → waiting_count id s ≤ 32
      → waiting_count id (file_request agent filing s).1 ≤ 32
  unfolding file_request ◌>>=◌
  file_request-bounded agent filing s id h =
      go (find_duplicate s.root_key filing (pending_of agent.id s.access_requests)) refl
    where
      ends :
          (r : Result Text) (t : Service)
          → waiting_count id t ≤ 32
          → waiting_count id (continue {B = Text × Bool} r (λ i u. (ok (i, true), u)) t).1 ≤ 32
      ends (ok i) t k = k
      ends (err e) t k = k

      go :
          (d : Result (Option AccessRow))
          → find_duplicate s.root_key filing (pending_of agent.id s.access_requests) ≡ d
          → waiting_count id (file_request agent filing s).1 ≤ 32
      go (ok (some row)) e = rw e h
      go (err f) e = rw e h
      go (ok none) e = elim (Bool-cases (leb 32 (waiting_count agent.id s))) [
        | inl full ↦ rw (e, full) h
        | inr room ↦
            rw (e, room)
              (ends (insert_request agent filing s).0 (insert_request agent filing s).1
                (insert_request_count agent filing s id (ground arith) h))
      ]
