-- ===== src/Routing/Merging/Tests.antt =====
-- Results of two branches that arrive in both orders, and two that conflict.
use mathlib.Core.List.{Permᴰ}
use jarvis_development.Prelude.{none, some, [], ◌∷◌, ◌≡◌, refl, Dict, String, string_eq}
use jarvis_development.Routing.Merging.{read, merge_by_id}
use jarvis_development.Routing.Merging.Order.{Update, deliver, Same, deliver-Perm}

abbrev json : String → String
json text = text

abbrev first : Update String
first = record { entries = ("a", "1") ∷ ("b", "2") ∷ []; keyed = (refl, (refl, tt)) }

abbrev second : Update String
second = record { entries = ("b", "2") ∷ ("c", "3") ∷ []; keyed = (refl, (refl, tt)) }

abbrev merged : Dict String String
merged = ("a", "1") ∷ ("b", "2") ∷ ("c", "3") ∷ []

conflict : merge_by_id json (("b", "1") ∷ []) second.entries ≡ none
unfolding merge_by_id read
conflict = refl

in_order : deliver json [] (first ∷ second ∷ []) ≡ some merged
unfolding deliver merge_by_id read
in_order = refl

deliver-Perm_example :
    (n : Dict String String) × (deliver json [] (second ∷ first ∷ []) ≡ some n) × Same json merged n
deliver-Perm_example = deliver-Perm json [] (Permᴰ.swap refl refl) in_order
