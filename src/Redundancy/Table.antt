-- ===== src/Redundancy/Table.antt =====
-- The table of the code.
use zxlib.Prelude.{ℕ, Bool, false, List, [], ◌∷◌, ◌==◌, get_or}

row : (a b c d e : ℕ) → List Bool
row a b c d e = (a == 1) ∷ (b == 1) ∷ (c == 1) ∷ (d == 1) ∷ (e == 1) ∷ []

-- `redundancy_table[j][i] == '1'`
unfoldable pub redundancy_table : (j i : ℕ) → Bool
unfolding row
redundancy_table j i = get_or (get_or rows j []) i false
  where
    rows : List (List Bool)
    rows =
        row 0 0 1 1 1
        ∷ row 0 1 0 1 1
        ∷ row 0 1 1 0 1
        ∷ row 0 1 1 1 0
        ∷ row 1 0 0 1 1
        ∷ row 1 0 1 0 1
        ∷ row 1 0 1 1 0
        ∷ row 1 1 0 0 1
        ∷ row 1 1 0 1 0
        ∷ row 1 1 1 0 0
        ∷ row 1 1 1 1 1
        ∷ row 1 0 0 0 0
        ∷ row 0 1 0 0 0
        ∷ row 0 0 1 0 0
        ∷ row 0 0 0 1 0
        ∷ row 0 0 0 0 1
        ∷ []
