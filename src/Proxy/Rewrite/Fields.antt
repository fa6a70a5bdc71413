-- ===== src/Proxy/Rewrite/Fields.antt =====
-- Header fields as HTTP defines them, and their lines.
use hakimi_hub.Prelude.{
  All, All-append, ◌==◌, ◌≡◌, ◌≢◌, refl, false, List, [], ◌∷◌, ◌++◌, map, arith,
}
use hakimi_hub.Prelude.Str.{Text}
use hakimi_hub.Prelude.Str.Utf8.{IsAscii}
use hakimi_hub.Prelude.Str.Alike.{Spaceless}
use hakimi_hub.Prelude.Str.Lines.{IsLine}
use hakimi_hub.Proxy.Rewrite.Origin.{word-IsText}

-- A name, a colon and a value.
pub record Field : Type 0 where
  pub name : Text
  pub value : Text

abbrev pub field_line : Field → Text
field_line f = f.name ++ (b':' ∷ f.value)

-- The name is ASCII, not empty, and has neither white space nor a colon; the value is ASCII without
-- a line break.
abbrev pub IsField : Field → Type 0
IsField f =
    (f.name ≢ [])
    × IsAscii f.name
    × Spaceless f.name
    × All (λ c. (c == b':') ≡ false) f.name
    × IsAscii f.value
    × All (λ c. ((c == 13) ≡ false) × ((c == 10) ≡ false)) f.value

pub fields-IsAscii :
    (fields : List Field) → All IsField fields → All IsAscii (map field_line fields)
fields-IsAscii [] h = tt
fields-IsAscii (f ∷ fields) (h, hs) =
    (All-append _ f.name (b':' ∷ f.value) h.1 (omega arith, h.4), fields-IsAscii fields hs)

filled : (name value : Text) → name ≢ [] → (name ++ (b':' ∷ value)) ≢ []
filled [] value n e = n refl
filled (c ∷ name) value n e = cc e

field-IsLine : (f : Field) → IsField f → IsLine (field_line f)
field-IsLine f h = (
  filled f.name f.value h.0,
  All-append _ f.name (b':' ∷ f.value) (word-IsText f.name h.2) ((refl, refl), h.5),
)

pub fields-IsLine : (fields : List Field) → All IsField fields → All IsLine (map field_line fields)
fields-IsLine [] h = tt
fields-IsLine (f ∷ fields) (h, hs) = (field-IsLine f h, fields-IsLine fields hs)
