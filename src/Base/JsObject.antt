-- ===== src/Base/JsObject.antt =====
-- Objects of JavaScript that are used as maps.
use mathlib.Core.List.{List, [], ◌∷◌}
use light_oss.Base.Text.{Text, codes}

-- The names that every object of JavaScript inherits; what they name is no array.
abbrev pub inherited_names : List Text
inherited_names =
    codes "constructor"
    ∷ codes "__defineGetter__"
    ∷ codes "__defineSetter__"
    ∷ codes "hasOwnProperty"
    ∷ codes "__lookupGetter__"
    ∷ codes "__lookupSetter__"
    ∷ codes "isPrototypeOf"
    ∷ codes "propertyIsEnumerable"
    ∷ codes "toString"
    ∷ codes "valueOf"
    ∷ codes "__proto__"
    ∷ codes "toLocaleString"
    ∷ []
