-- ===== src/Broker/Target.antt =====
-- Where the broker may send a secret: `_validate_target` of passd/service.py.
use passd.Base.{
  ◌&&◌, not, false, refl, none, arith, is_empty, true, all, ◌||◌, some, ℕ, List, Option, Bool, ◌≡◌,
}
use passd.Platform.{Platform}
use passd.Broker.{web_port, above_ceiling, is_web, check_addresses, validate_target}
use passd.Db.{AgentRow}
use passd.Text.{lower, codes, ◌==◌, Text}
use passd.Errors.{ok_injective, guard_ok, sequence_ok, ok}
use passd.Url.{has_userinfo, hostname, port, urlsplit, SplitResult}
use mathlib.Core.Path.{subst}
use passd.Capabilities.{port_or}

-- The two tests of the scheme, on what passes them.
web_and_named : (web empty : Bool) → (not web || empty) ≡ false → (web ≡ true) × (empty ≡ false)
web_and_named web empty h = ground arith

secure_or_allowed :
    (secure allowed : Bool) → (not secure && not allowed) ≡ false → (secure || allowed) ≡ true
secure_or_allowed secure allowed h = ground arith

module _ ⦃p : Platform⦄ where
  -- An address of the web, over https unless private targets are allowed, with a host that is below
  -- the agent's ceiling, no user information, and public addresses only unless private ones are
  -- allowed.
  pub record IsTarget (allow_private : Bool) (agent : Option AgentRow) (url : Text)
      (parsed : SplitResult) : Type 0 where
    pub addresses : List Text
    pub number : Option ℕ
    pub split : urlsplit p.unicode url ≡ ok parsed
    pub web : is_web parsed.scheme ≡ true
    pub named : is_empty (hostname parsed) ≡ false
    pub secure : (parsed.scheme == codes "https" || allow_private) ≡ true
    pub no_userinfo : has_userinfo parsed ≡ false
    pub below_ceiling : above_ceiling agent (lower (hostname parsed)) ≡ false
    pub numbered : port parsed ≡ ok number
    pub resolved :
        p.resolve (lower (hostname parsed)) (port_or number (web_port parsed.scheme))
        ≡ some addresses
    pub reached_public : (allow_private || all p.is_global addresses) ≡ true

  check_addresses_ok :
      (allow_private : Bool) (found : Option (List Text))
      → check_addresses allow_private found ≡ ok tt
      → (addresses : List Text) × (found ≡ some addresses)
        × ((allow_private || all p.is_global addresses) ≡ true)
  unfolding check_addresses
  check_addresses_ok allow_private none h = absurd (cc h)
  check_addresses_ok allow_private (some addresses) h = (addresses, refl, ground arith)

  -- A target that is let through is one.
  pub validate_target-IsTarget :
      (allow_private : Bool) (agent : Option AgentRow) (url : Text) (parsed : SplitResult)
      → validate_target allow_private agent url ≡ ok parsed
      → IsTarget allow_private agent url parsed
  unfolding validate_target
  validate_target-IsTarget allow_private agent url parsed h =
      let (found, split, h1) = sequence_ok (urlsplit p.unicode url) _ h in
      let (a, h2) = guard_ok _ _ _ h1 in
      let (web, named) = web_and_named (is_web found.scheme) (is_empty (hostname found)) a in
      let (b, h3) = guard_ok _ _ _ h2 in
      let (c, h4) = guard_ok _ _ _ h3 in
      let (d, h5) = guard_ok _ _ _ h4 in
      let (number, numbered, h6) = sequence_ok (port found) _ h5 in
      let (u, checked, h7) = sequence_ok (check_addresses allow_private _) _ h6 in
      let (addresses, resolved, reached_public) = check_addresses_ok allow_private _ checked in
      subst (IsTarget allow_private agent url) (ok_injective h7) (record {
        addresses = addresses;
        number = number;
        split = split;
        web = web;
        named = named;
        secure = secure_or_allowed (found.scheme == codes "https") allow_private b;
        no_userinfo = c;
        below_ceiling = d;
        numbered = numbered;
        resolved = resolved;
        reached_public = reached_public;
      })
