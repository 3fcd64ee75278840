-- ===== src/Tests/Keys.antt =====
-- The theorems on machine keys, each applied to a concrete run.
use passd.Tests.World.{toy}
use passd.Base.{find, leb, ◌∷◌, true, if◌then◌else◌, [], ◌+◌, false, some, ◌≡◌, refl}
use passd.Text.{codes, Text, has_char, starts_with}
use passd.Agents.{
  has_id, token_hash, check_token, token_of, create_agent, rotate_agent, authenticate_agent,
  parse_token, revoke_agent,
}
use passd.Db.{AgentRow, Service}
use passd.Errors.{expired_token, auth_error, ok, err, Result}
use passd.Agents.Rotation.{rotate_agent-IsRotated, IsRotated}
use passd.Tests.Story.{bot, service_with}
use passd.Exec.{◌>>=◌}
use passd.Agents.Authenticate.{authenticate_sound, IsLive}
use passd.Agents.Lifecycle.{refused_as, create-authenticate, revoke_stops}

abbrev house : Service
house = service_with []

abbrev key_of : Result (Text × AgentRow) → Text × AgentRow
key_of (ok r) = r
key_of (err e) = ([], bot)

abbrev made : Result (Text × AgentRow) × Service
made = create_agent (codes "new") (codes "secret.use" ∷ []) [] [] [] 3600 house

made_runs : made ≡ (ok ((key_of made.0).0, (key_of made.0).1), made.1)
unfolding create_agent ◌>>=◌ passd.Agents.validate_agent passd.Text.strip
    passd.Agents.normalize_hosts passd.Agents.insert_agent
made_runs = refl

no_dot : has_char b'.' (house.entropy house.drawn) ≡ false
unfolding has_char
no_dot = refl

create-authenticate_example :
    ((key_of made.0).1.expires_at ≡ house.clock + 3600)
    × ((authenticate_agent (some (key_of made.0).0) (record made.1 { clock = 2000 })).0 ≡ (
        if leb (key_of made.0).1.expires_at 2000
        then err (auth_error expired_token)
        else ok (key_of made.0).1))
create-authenticate_example =
    create-authenticate (codes "new") (codes "secret.use" ∷ []) [] [] [] 3600 house made.1
      (key_of made.0).0 (key_of made.0).1 2000 no_dot made_runs

abbrev gone : Result Text × Service
gone = revoke_agent (codes "bot") house

gone_runs : gone ≡ (ok (codes "pda_b"), gone.1)
unfolding revoke_agent ◌>>=◌ passd.Text.◌==◌
gone_runs = refl

token_parses : parse_token (some (codes "pda_b.k")) ≡ ok (codes "pda_b", codes "k")
unfolding parse_token
token_parses = refl

revoke_stops_example :
    (authenticate_agent (some (codes "pda_b.k")) (record gone.1 { clock = 1500 })).0
    ≡ err (auth_error (refused_as (find (has_id (codes "pda_b")) house.agents)))
revoke_stops_example =
    revoke_stops (codes "bot") house gone.1 (codes "pda_b") (codes "k") (some (codes "pda_b.k"))
      1500 gone_runs token_parses

abbrev turned : Result (Text × AgentRow) × Service
turned = rotate_agent (codes "bot") house

turned_runs : turned ≡ (ok ((key_of turned.0).0, (key_of turned.0).1), turned.1)
unfolding rotate_agent ◌>>=◌ passd.Text.◌==◌
turned_runs = refl

turned_form :
    (starts_with (key_of turned.0).1.id (codes "pda_") ≡ true)
    × (has_char b'.' (key_of turned.0).1.id ≡ false)
unfolding rotate_agent ◌>>=◌ starts_with has_char passd.Text.◌==◌
turned_form = (refl, refl)

rotate_agent-IsRotated_example : IsRotated house turned.1 (key_of turned.0).0 (key_of turned.0).1
rotate_agent-IsRotated_example =
    rotate_agent-IsRotated (codes "bot") house turned.1 (key_of turned.0).0 (key_of turned.0).1
      turned_runs turned_form.0 turned_form.1

let_in : authenticate_agent (some (codes "pda_b.k")) house ≡ (ok bot, house)
unfolding authenticate_agent ◌>>=◌ parse_token passd.Text.◌==◌
let_in = refl

authenticate_sound_example :
    (house ≡ house)
    × ((id : Text) × (secret : Text) × (parse_token (some (codes "pda_b.k")) ≡ ok (id, secret))
        × IsLive house id (token_hash secret) bot)
authenticate_sound_example = authenticate_sound (some (codes "pda_b.k")) house house bot let_in

id_form :
    (starts_with (codes "pda_b") (codes "pda_") ≡ true) × (has_char b'.' (codes "pda_b") ≡ false)
unfolding starts_with has_char
id_form = (refl, refl)
