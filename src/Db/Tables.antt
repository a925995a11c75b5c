-- ===== src/Db/Tables.antt =====
-- internal/db/sql: what the queries do to a table with a text as its primary key. A table is the list
-- of its rows; `none` is a constraint that fails. Failures of the engine itself are not modelled.
use cedana.Base.{
  String, str_eq, Bool, false, ◌||◌, Option, none, some, List, [], ◌∷◌, ◌++◌, if◌then◌else◌,
}

-- `key IN (ids)`; with no ids the query reads `IN (NULL)`, which holds of no row.
unfoldable pub one_of : List String → String → Bool
one_of [] k = false
one_of (i ∷ is) k = str_eq i k || one_of is k

module _ {R : Type 0} (key : R → String) where
  unfoldable pub has : String → List R → Bool
  has k [] = false
  has k (r ∷ rs) = str_eq (key r) k || has k rs

  -- INSERT, with the CHECK constraints of the table.
  unfoldable pub insert : (R → Bool) → R → List R → Option (List R)
  unfolding has
  insert check r rs = if has (key r) rs then none else if check r then some (rs ++ r ∷ []) else none

  unfoldable pub replace : R → List R → List R
  replace r [] = []
  replace r (x ∷ xs) =
      let rest = replace r xs in if str_eq (key x) (key r) then r ∷ rest else x ∷ rest

  -- UPDATE ... WHERE of all columns but the key. Without such a row it does nothing.
  unfoldable pub update : (R → Bool) → R → List R → Option (List R)
  unfolding has replace
  update check r rs =
      if has (key r) rs then (if check r then some (replace r rs) else none) else some rs

  -- DELETE ... WHERE.
  unfoldable pub remove : String → List R → List R
  remove k [] = []
  remove k (x ∷ xs) = let rest = remove k xs in if str_eq (key x) k then rest else x ∷ rest

  -- SELECT ... WHERE key IN.
  unfoldable pub select : List String → List R → List R
  unfolding one_of
  select ids [] = []
  select ids (x ∷ xs) = let rest = select ids xs in if one_of ids (key x) then x ∷ rest else rest

  -- The row that a JOIN on the key finds.
  unfoldable pub row_of : String → List R → Option R
  row_of k [] = none
  row_of k (x ∷ xs) = if str_eq (key x) k then some x else row_of k xs
