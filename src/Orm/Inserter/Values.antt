-- ===== src/Orm/Inserter/Values.antt =====
-- The rows of an insertion: placeholders in the text, and the arguments row by row.
use gotest.Common.{none, List, [], ◌∷◌, ◌++◌, map}
use gotest.Common.Text.{Text, codes}
use gotest.Orm.Builder.{Builder}
use gotest.Orm.Render.{Out}
use gotest.Orm.Inserter.{Inserter}

-- `?,?,…`, one for each field, and `(?,?),(?,?),…`, one pair of parentheses for each row.
unfoldable pub placeholders : {A : Type 0} → List A → Text
placeholders [] = []
placeholders (x ∷ []) = codes "?"
placeholders (x ∷ y ∷ xs) = codes "?" ++ (codes "," ++ placeholders (y ∷ xs))

unfoldable pub rows_text : {A B : Type 0} → List A → List B → Text
rows_text [] fs = []
rows_text (v ∷ []) fs = (codes "(" ++ placeholders fs) ++ codes ")"
rows_text (v ∷ w ∷ vs) fs =
    ((codes "(" ++ placeholders fs) ++ codes ")") ++ (codes "," ++ rows_text (w ∷ vs) fs)

-- The arguments of the rows, one row after another.
unfoldable pub row_major : {A B C : Type 0} → (A → B → C) → List A → List B → List C
row_major f [] ys = []
row_major f (x ∷ []) ys = map (f x) ys
row_major f (x ∷ y ∷ xs) ys = map (f x) ys ++ row_major f (y ∷ xs) ys

module _ {V : Type 0} where
  abbrev fine : Text → List V → Out V
  fine s vs = record { text = s; args = vs; failure = none }
