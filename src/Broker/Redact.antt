-- ===== src/Broker/Redact.antt =====
-- `_redact` of passd/service.py: the secret's text is replaced wherever it stands in a response.
use passd.Base.{zero, ◌-◌, length, [], ◌++◌, ◌||◌, ◌∷◌, is_empty, if◌then◌else◌, suc, Bool, ℕ}
use passd.Text.{starts_with, codes, Text}

-- `s.replace(old, new)`, for a text that is not empty: from the left, and `skip` characters that the
-- last match took are left out.
unfoldable pub replace_from : ℕ → Text → Text → Text → Text
replace_from skip old new [] = []
replace_from (suc skip) old new (c ∷ s) = replace_from skip old new s
replace_from zero old new (c ∷ s) =
    let taken = new ++ replace_from (length old - 1) old new s in
    let kept = c ∷ replace_from zero old new s in if starts_with (c ∷ s) old then taken else kept

abbrev pub concealed : Text
concealed = codes "<concealed by passd>"

unfoldable pub redact : Text → Text → Text
unfolding replace_from
redact value secret = if is_empty secret then value else replace_from 0 secret concealed value

-- Is one text somewhere in another?
abbrev pub contains : Text → Text → Bool
contains old [] = starts_with [] old
contains old (c ∷ s) = starts_with (c ∷ s) old || contains old s
