-- ===== src/Proton/Fields.antt =====
-- What the fields of an imported item hold: `map_fields` of passd/proton_import.py.
use passd.Base.{
  ◌∙◌, ap, false, inr, inl, sym, none, if◌then◌else◌, Bool-cases, [], ◌∷◌, Bool, some, filter, true,
  All, Option, List, ◌≡◌, refl,
}
use passd.Payload.{Value}
use passd.Text.{codes, ◌==◌, Text}
use passd.Proton.{
  is_type, card_mapping, login_mapping, ItemData, extra_value, add_extras, ExtraField, map_fields,
  mapped_all, mapped, is_there, is_filled, there, set_field,
}
use passd.Items.{lookup_field}
use passd.Capabilities.{text_or}

-- A field with a value, not null.
abbrev pub IsThere : Text × Value → Type 0
IsThere field = is_there field.1 ≡ true

mapped-AllThere :
    (content : List (Text × Value)) (entry : Text × Text) (fields : List (Text × Value))
    → All IsThere fields
    → All IsThere (mapped content entry fields)
mapped-AllThere content (name, key) fields all = by (lookup_field key content)
  where
    put :
        (v : Value) (b : Bool)
        → is_there v ≡ b
        → All IsThere (if b then (name, v) ∷ fields else fields)
    put v true h = (h, all)
    put v false h = all

    by :
        (found : Option Value)
        → All IsThere (elim found [
          | none ↦ fields
          | some v ↦ if is_there v then (name, v) ∷ fields else fields
        ])
    by none = all
    by (some v) = put v (is_there v) refl

mapped_all-AllThere :
    (content : List (Text × Value)) (mapping : List (Text × Text))
    → All IsThere (mapped_all content mapping)
mapped_all-AllThere content [] = tt
mapped_all-AllThere content (entry ∷ mapping) =
    mapped-AllThere content entry (mapped_all content mapping) (mapped_all-AllThere content mapping)

is_filled-there : (v : Value) → is_filled v ≡ true → is_there v ≡ true
is_filled-there Value.null h = absurd (cc h)
is_filled-there (Value.boolean b) h = refl
is_filled-there (Value.integer n) h = refl
is_filled-there (Value.number t) h = refl
is_filled-there (Value.composite t) h = refl
is_filled-there (Value.text t) h = refl

filled-AllThere :
    (content : List (Text × Value)) → All IsThere (filter (λ field. is_filled field.1) content)
filled-AllThere [] = tt
filled-AllThere (field ∷ content) = elim (Bool-cases (is_filled field.1)) [
  | inl full ↦ rw full (is_filled-there field.1 full, filled-AllThere content)
  | inr other ↦ rw other (filled-AllThere content)
]

set_field-AllThere :
    (k : Text) (v : Value) (fields : List (Text × Value))
    → is_there v ≡ true
    → All IsThere fields
    → All IsThere (set_field k v fields)
unfolding set_field
set_field-AllThere k v [] h all = (h, tt)
set_field-AllThere k v ((k', v') ∷ fields) h (first, all) = elim (Bool-cases (k' == k)) [
  | inl same ↦ rw same (h, all)
  | inr other ↦ rw other (first, set_field-AllThere k v fields h all)
]

there_ok : (found : Option Value) (v : Value) → there found ≡ some v → is_there v ≡ true
there_ok none v h = absurd (cc h)
there_ok (some w) v h = by (is_there w) refl h
  where
    by : (b : Bool) → is_there w ≡ b → (if b then some w else none) ≡ some v → is_there v ≡ true
    by true e h = sym (ap is_there_of h) ∙ e
      where
        is_there_of : Option Value → Bool
        is_there_of none = true
        is_there_of (some x) = is_there x
    by false e h = absurd (cc h)

extra_value_ok : (extra : ExtraField) (v : Value) → extra_value extra ≡ some v → is_there v ≡ true
extra_value_ok extra v h = by (there extra.content) refl h
  where
    by :
        (found : Option Value)
        → found ≡ there extra.content
        → elim found [ some w ↦ some w | none ↦ there extra.totp_uri ] ≡ some v
        → is_there v ≡ true
    by none e taken = there_ok extra.totp_uri v taken
    by (some w) e taken = there_ok extra.content v (sym e ∙ taken)

add_extras-AllThere :
    (extras : List ExtraField) (fields : List (Text × Value))
    → All IsThere fields
    → All IsThere (add_extras extras fields)
unfolding add_extras
add_extras-AllThere [] fields all = all
add_extras-AllThere (extra ∷ extras) fields all =
    add_extras-AllThere extras _ (by (extra_value extra) refl)
  where
    name : Text
    name = text_or extra.name (codes "field")

    by :
        (found : Option Value)
        → extra_value extra ≡ found
        → All IsThere (elim found [ none ↦ fields | some v ↦ set_field name v fields ])
    by none e = all
    by (some v) e = set_field-AllThere name v fields (extra_value_ok extra v e) all

-- Whatever an exported item holds, no field that is imported is null.
pub map_fields-AllThere : (idata : ItemData) → All IsThere (map_fields idata)
unfolding map_fields
map_fields-AllThere idata =
    add_extras-AllThere idata.extra_fields _
      (chosen (is_type idata.type (codes "login")) (is_type idata.type (codes "creditCard")))
  where
    chosen :
        (login card : Bool)
        → All IsThere (
            if login
            then mapped_all idata.content login_mapping
            else if card
            then mapped_all idata.content card_mapping
            else filter (λ field. is_filled field.1) idata.content)
    chosen true card = mapped_all-AllThere idata.content login_mapping
    chosen false true = mapped_all-AllThere idata.content card_mapping
    chosen false false = filled-AllThere idata.content
