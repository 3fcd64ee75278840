-- ===== src/Access/Table/Granting.antt =====
-- Changes of the table of requests that make no lease and widen none.
use passd.Base.{
  ◌∙◌, refl, false, if◌then◌else◌, [], update_where, ◌++◌, ◌∷◌, true, Bool, List, ◌≡◌, All, arith,
  ℕ, &&-split,
}
use passd.Text.{Text}
use passd.Db.{AuditRow, AccessRow, approved, stale, Service}
use passd.Exec.Moves.{Order, Moves, Moves-modify}
use passd.Access.{is_active, access_has_id}
use passd.Access.Review.{set_status, update_requests}
use passd.Access.Claim.{spend, claimable}
use passd.Access.Lease.{SameLease, Reach-SameLease, here, next, Step}
use passd.Access.Table.{IsNew}
use passd.Access.Table.Operations.{Lending}

-- A row that is approved afterwards was approved before, and is the same lease.
abbrev pub Ungranted : AccessRow → AccessRow → Type 0
Ungranted a b = b.status ≡ approved → (a.status ≡ approved) × SameLease a b

abbrev pub NoLease : AccessRow → Type 0
NoLease row = ¬ (row.status ≡ approved)

abbrev pub AllUngranted : List AccessRow → List AccessRow → Type 0
AllUngranted [] ys = All NoLease ys
AllUngranted (x ∷ xs) [] = ⊥
AllUngranted (x ∷ xs) (y ∷ ys) = Ungranted x y × AllUngranted xs ys

same : (x : AccessRow) → Ungranted x x
same x e = (e, Reach-SameLease e here)

lease_trans : (x y z : AccessRow) → SameLease x y → SameLease y z → SameLease x z
lease_trans x y z h g = ground arith

Ungranted-trans : (x y z : AccessRow) → Ungranted x y → Ungranted y z → Ungranted x z
Ungranted-trans x y z h g e =
    let (was, lease) = g e in let (first, kept) = h was in (first, lease_trans x y z kept lease)

AllUngranted-refl : (xs : List AccessRow) → AllUngranted xs xs
AllUngranted-refl [] = tt
AllUngranted-refl (x ∷ xs) = (same x, AllUngranted-refl xs)

still : (ys zs : List AccessRow) → All NoLease ys → AllUngranted ys zs → All NoLease zs
still [] zs h g = g
still (y ∷ ys) [] h g = absurd g
still (y ∷ ys) (z ∷ zs) (n, h) (u, g) = (λ e. n (u e).0, still ys zs h g)

AllUngranted-trans :
    (xs ys zs : List AccessRow) → AllUngranted xs ys → AllUngranted ys zs → AllUngranted xs zs
AllUngranted-trans [] ys zs h g = still ys zs h g
AllUngranted-trans (x ∷ xs) [] zs h g = absurd h
AllUngranted-trans (x ∷ xs) (y ∷ ys) [] h g = absurd g
AllUngranted-trans (x ∷ xs) (y ∷ ys) (z ∷ zs) (u, h) (v, g) =
    (Ungranted-trans x y z u v, AllUngranted-trans xs ys zs h g)

AllUngranted-append :
    (xs : List AccessRow) (row : AccessRow) → IsNew row → AllUngranted xs (xs ++ row ∷ [])
AllUngranted-append [] row new = ((λ e. cc (new.status, e)), tt)
AllUngranted-append (x ∷ xs) row new = (same x, AllUngranted-append xs row new)

AllUngranted-update_where :
    (p : AccessRow → Bool) (f : AccessRow → AccessRow) (xs : List AccessRow)
    → ((x : AccessRow) → p x ≡ true → Ungranted x (f x))
    → AllUngranted xs (update_where p f xs)
AllUngranted-update_where p f [] kept = tt
AllUngranted-update_where p f (x ∷ xs) kept =
    (one (p x) (kept x), AllUngranted-update_where p f xs kept)
  where
    one : (b : Bool) → (b ≡ true → Ungranted x (f x)) → Ungranted x (if b then f x else x)
    one true k = k refl
    one false k = same x

-- No request becomes a lease, and none is filed as one; the installation and its key are the same.
pub record NothingGranted (s t : Service) : Type 0 where
  pub rows : AllUngranted s.access_requests t.access_requests
  pub config : t.config ≡ s.config
  pub root_key : t.root_key ≡ s.root_key

granting :
    (s : Service) (rows : List AccessRow) (audits : List AuditRow) (n : ℕ)
    → AllUngranted s.access_requests rows
    → NothingGranted s (record s { access_requests = rows; audits = audits; drawn = n })
granting s rows audits n kept = record { rows = kept; config = refl; root_key = refl }

pub nothing_done : (s : Service) → NothingGranted s s
nothing_done s = granting s s.access_requests s.audits s.drawn (AllUngranted-refl s.access_requests)

pub NothingGranted-trans :
    (s t u : Service) → NothingGranted s t → NothingGranted t u → NothingGranted s u
NothingGranted-trans s t u h g = record {
  rows = AllUngranted-trans s.access_requests t.access_requests u.access_requests h.rows g.rows;
  config = g.config ∙ h.config;
  root_key = g.root_key ∙ h.root_key;
}

granting_order : Order NothingGranted
granting_order = record {
  here = nothing_done;
  after = NothingGranted-trans;
  drawing = λ s n. granting s s.access_requests s.audits n (AllUngranted-refl s.access_requests);
}

updates :
    (p : AccessRow → Bool) (f : AccessRow → AccessRow)
    → ((x : AccessRow) → p x ≡ true → Ungranted x (f x))
    → Moves NothingGranted (update_requests p f)
updates p f kept =
    Moves-modify granting_order _
      λ s. granting s _ s.audits s.drawn (AllUngranted-update_where p f s.access_requests kept)

closes : (ts : ℕ) (x : AccessRow) → Ungranted x (set_status stale ts x)
closes ts x e = absurd (cc e)

spends_lease :
    (id : Text) (ts : ℕ) (x : AccessRow) → claimable id ts x ≡ true → Ungranted x (spend x)
spends_lease id ts x h e =
    let active : is_active ts x ≡ true = (&&-split (access_has_id id x) (is_active ts x) h).1 in
    (e, Reach-SameLease e (next here (Step.use_once ts active)))

instance pub granting_lending : Lending NothingGranted
granting_lending = record {
  order = granting_order;
  logs = λ s rows n. granting s s.access_requests rows n (AllUngranted-refl s.access_requests);
  drops = λ id ts. updates _ _ λ x h. closes ts x;
  expires = λ id ts. updates _ _ λ x h. closes ts x;
  spends = λ id ts. updates _ _ λ x h. spends_lease id ts x h;
  files = λ row new.
      Moves-modify granting_order _
        λ s. granting s _ s.audits s.drawn (AllUngranted-append s.access_requests row new);
}
