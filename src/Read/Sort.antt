-- ===== src/Read/Sort.antt =====
-- `std::sort` on names: the one order of the bytes, as an insertion sort.
use archspec.Base.{Bool, true, false, ◌&&◌, ◌||◌, List, [], ◌∷◌, Bytes, ltb, ◌==◌, if◌then◌else◌}

-- `a < b` on strings
unfoldable pub less : Bytes → Bytes → Bool
less a [] = false
less [] (y ∷ b) = true
less (x ∷ a) (y ∷ b) = ltb x y || (x == y && less a b)

unfoldable pub insert_name : Bytes → List Bytes → List Bytes
unfolding less
insert_name name [] = name ∷ []
insert_name name (n ∷ ns) = if less n name then n ∷ insert_name name ns else name ∷ n ∷ ns

unfoldable pub sort_names : List Bytes → List Bytes
unfolding insert_name
sort_names [] = []
sort_names (n ∷ ns) = insert_name n (sort_names ns)
