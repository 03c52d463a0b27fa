-- ===== src/Browser/Params.antt =====
-- The `URLSearchParams` of the browser: pairs in order, read by the first pair of a key.
use light_oss.Base.{◌≡◌, refl, Option, none, some, List, [], ◌∷◌, arith, if◌then◌else◌, is_empty}
use light_oss.Base.Text.{Text, text_eq, text_eq_iff}

abbrev pub SearchParams : Type 0
SearchParams = List (Text × Text)

unfoldable pub get : Text → SearchParams → Option Text
get k [] = none
get k ((j, v) ∷ ps) = if text_eq j k then some v else get k ps

unfoldable pub delete : Text → SearchParams → SearchParams
delete k [] = []
delete k ((j, v) ∷ ps) = if text_eq j k then delete k ps else (j, v) ∷ delete k ps

-- `set` writes to the first pair of the key and deletes the others.
unfoldable pub set : Text → Text → SearchParams → SearchParams
unfolding delete
set k v [] = (k, v) ∷ []
set k v ((j, w) ∷ ps) = if text_eq j k then (k, v) ∷ delete k ps else (j, w) ∷ set k v ps

-- The body of the loop of `updateSearchParams`: an empty value deletes the key.
unfoldable pub write : Text → Text → SearchParams → SearchParams
write k v ps = if is_empty v then delete k ps else set k v ps

-- `updateSearchParams`, over the entries of its argument in their order.
unfoldable pub update_search_params : List (Text × Text) → SearchParams → SearchParams
update_search_params [] ps = ps
update_search_params ((k, v) ∷ updates) ps = update_search_params updates (write k v ps)

get-delete :
    (k j : Text) (ps : SearchParams)
    → get j (delete k ps) ≡ (if text_eq k j then none else get j ps)
unfolding get delete
get-delete k j [] = ground arith
get-delete k j ((i, v) ∷ ps) =
    ground (arith, get-delete k j ps, text_eq_iff i k, text_eq_iff i j, text_eq_iff k j)

get-set :
    (k j v : Text) (ps : SearchParams)
    → get j (set k v ps) ≡ (if text_eq k j then some v else get j ps)
unfolding get set
get-set k j v [] = refl
get-set k j v ((i, w) ∷ ps) =
    ground (
      arith,
      get-set k j v ps,
      get-delete k j ps,
      text_eq_iff i k,
      text_eq_iff i j,
      text_eq_iff k j,
    )

-- What a parameter is after one write: absent for an empty value.
pub get-write :
    (k j v : Text) (ps : SearchParams)
    → get j (write k v ps)
      ≡ (if text_eq k j then (if is_empty v then none else some v) else get j ps)
unfolding write
get-write k j v ps = ground (arith, get-delete k j ps, get-set k j v ps)
