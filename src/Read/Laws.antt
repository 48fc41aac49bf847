-- ===== src/Read/Laws.antt =====
-- src/internal.hh: the order of a directory's names, and what the readers of numbers return.
use archspec.Base.{
  ◌≡◌, refl, ◌∙◌, ap, true, false, ◌||◌, List, [], ◌∷◌, Bytes, some, contains, eq_bytes, Bool-cases,
  Option-cases, inl, inr, arith, All,
}
use archspec.Base.Distinct.{Distinct, eq_bytes_sym}
use archspec.Host.{Files}
use archspec.Read.{list_dir}
use archspec.Read.Sort.{less, insert_name, sort_names}

-- No name stands behind a greater one.
abbrev pub Sorted : List Bytes → Type 0
Sorted [] = Unit
Sorted (n ∷ ns) = All (λ m. less m n ≡ false) ns × Sorted ns

less_asym : (a b : Bytes) → less a b ≡ true → less b a ≡ false
unfolding less
less_asym [] [] h = refl
less_asym [] (y ∷ b) h = refl
less_asym (x ∷ a) [] h = absurd (ground arith)
less_asym (x ∷ a) (y ∷ b) h = ground (arith, less_asym a b)

-- `≤` on names is transitive.
not_less_trans : (a b c : Bytes) → less b a ≡ false → less c b ≡ false → less c a ≡ false
unfolding less
not_less_trans [] b c p q = refl
not_less_trans (x ∷ a) [] c p q = absurd (ground arith)
not_less_trans (x ∷ a) (y ∷ b) [] p q = absurd (ground arith)
not_less_trans (x ∷ a) (y ∷ b) (z ∷ c) p q = ground (arith, not_less_trans a b c)

All-not_less :
    (a b : Bytes) (ns : List Bytes)
    → less b a ≡ false
    → All (λ m. less m b ≡ false) ns
    → All (λ m. less m a ≡ false) ns
All-not_less a b [] p h = tt
All-not_less a b (n ∷ ns) p (q, h) = (not_less_trans a b n p q, All-not_less a b ns p h)

insert_name-All :
    (a name : Bytes) (ns : List Bytes)
    → less name a ≡ false
    → All (λ m. less m a ≡ false) ns
    → All (λ m. less m a ≡ false) (insert_name name ns)
unfolding insert_name
insert_name-All a name [] p h = (p, tt)
insert_name-All a name (n ∷ ns) p (q, h) = elim (Bool-cases (less n name)) [
  | inl e ↦ rw (e, insert_name) (q, insert_name-All a name ns p h)
  | inr e ↦ rw (e, insert_name) (p, (q, h))
]

insert_name-Sorted : (name : Bytes) (ns : List Bytes) → Sorted ns → Sorted (insert_name name ns)
unfolding insert_name
insert_name-Sorted name [] h = (tt, tt)
insert_name-Sorted name (n ∷ ns) (h, hs) = elim (Bool-cases (less n name)) [
  | inl e ↦
      rw (e, insert_name)
        (insert_name-All n name ns (less_asym n name e) h, insert_name-Sorted name ns hs)
  | inr e ↦ rw (e, insert_name) ((e, All-not_less name n ns e h), (h, hs))
]

pub sort_names-Sorted : (ns : List Bytes) → Sorted (sort_names ns)
unfolding sort_names
sort_names-Sorted [] = tt
sort_names-Sorted (n ∷ ns) = insert_name-Sorted n (sort_names ns) (sort_names-Sorted ns)

contains-insert_name :
    (name : Bytes) (ns : List Bytes) (a : Bytes)
    → contains (insert_name name ns) a ≡ eq_bytes name a || contains ns a
unfolding insert_name contains
contains-insert_name name [] a = refl
contains-insert_name name (n ∷ ns) a = ground (arith, contains-insert_name name ns a)

contains-sort_names : (ns : List Bytes) (a : Bytes) → contains (sort_names ns) a ≡ contains ns a
unfolding sort_names contains
contains-sort_names [] a = refl
contains-sort_names (n ∷ ns) a =
    contains-insert_name n (sort_names ns) a ∙ ap (eq_bytes n a ||◌) (contains-sort_names ns a)

insert_name-Distinct :
    (name : Bytes) (ns : List Bytes)
    → contains ns name ≡ false
    → Distinct ns
    → Distinct (insert_name name ns)
unfolding insert_name contains
insert_name-Distinct name [] new d = (refl, tt)
insert_name-Distinct name (n ∷ ns) new (old, d) = elim (Bool-cases (less n name)) [
  | inl e ↦
      rw (e, insert_name)
        (
          rw contains-insert_name (ground (arith, eq_bytes_sym n name)),
          insert_name-Distinct name ns (ground arith) d,
        )
  | inr e ↦ rw (e, insert_name) (new, (old, d))
]

sort_names-Distinct : (ns : List Bytes) → Distinct ns → Distinct (sort_names ns)
unfolding sort_names
sort_names-Distinct [] d = tt
sort_names-Distinct (n ∷ ns) (new, d) =
    insert_name-Distinct n (sort_names ns) (contains-sort_names ns n ∙ new)
      (sort_names-Distinct ns d)

-- The names of a directory that can be opened come in ascending order, and are the names that the
-- iterator gave.
pub list_dir-Sorted :
    (h : Files) (path : Bytes) (names : List Bytes)
    → h.directory path ≡ some names
    → Sorted (list_dir h path) × ((a : Bytes) → contains (list_dir h path) a ≡ contains names a)
unfolding list_dir
list_dir-Sorted h path names e =
    rw (e, list_dir) (sort_names-Sorted names, contains-sort_names names)

-- Where a listing repeats no name, the sorted one repeats none.
pub list_dir-Distinct :
    (h : Files) (path : Bytes)
    → ((names : List Bytes) → h.directory path ≡ some names → Distinct names)
    → Distinct (list_dir h path)
unfolding list_dir
list_dir-Distinct h path distinct = elim (Option-cases (h.directory path)) [
  | inl e ↦ rw (e, list_dir) tt
  | inr (names, e) ↦ rw (e, list_dir) (sort_names-Distinct names (distinct names e))
]
