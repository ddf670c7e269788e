-- ===== src/Types/Members/Indices.antt =====
-- The names of the elements of an array, `ArrayType::get_member_index` of src/type.cpp.
use pars_c.Common.{
  Bool-cases, Bytes, List, Option, [], arith, bytes_eq, bytes_eq→eq, bytes_eq_self, false,
  get_elem?, inl, inr, leb, leb→le, leb-false→lt, none, some, suc, zero, ℕ, ◌<◌, ◌∷◌, ◌≡◌, ap,
}
use mathlib.Core.Option.{map, some-injective}
use pars_c.Types.Members.{find_name, get_member_index, index_within}

abbrev pub IsAt : List Bytes → Bytes → ℕ → Type 0
IsAt names name i = get_elem? names i ≡ some name

-- The first of the first `size` names that is `name`, if there is one
abbrev pub IsFirst : List Bytes → ℕ → Bytes → Option ℕ → Type 0
IsFirst names size name none = (j : ℕ) → j < size → ¬ IsAt names name j
IsFirst names size name (some i) =
    (i < size) × IsAt names name i × ((j : ℕ) → j < i → ¬ IsAt names name j)

abbrev IsFirstOfAll : List Bytes → Bytes → Option ℕ → Type 0
IsFirstOfAll names name none = (j : ℕ) → ¬ IsAt names name j
IsFirstOfAll names name (some i) = IsAt names name i × ((j : ℕ) → j < i → ¬ IsAt names name j)

not_first : (first name : Bytes) → bytes_eq first name ≡ false → ¬ (first ≡ name)
not_first first name e same =
    let e' = bytes_eq_self name in let p = ap (λ x. bytes_eq x name) same in absurd (cc)

behind-IsFirstOfAll :
    (first : Bytes) (names : List Bytes) (name : Bytes) (rest : Option ℕ)
    → bytes_eq first name ≡ false
    → IsFirstOfAll names name rest
    → IsFirstOfAll (first ∷ names) name (map suc rest)
behind-IsFirstOfAll first names name none e h = not_at
  where
    not_at : (j : ℕ) → ¬ IsAt (first ∷ names) name j
    not_at zero p = not_first first name e (some-injective first name p)
    not_at (suc j) p = h j p
behind-IsFirstOfAll first names name (some i) e (at, none_before) = (at, not_before)
  where
    not_before : (j : ℕ) → j < suc i → ¬ IsAt (first ∷ names) name j
    not_before zero lt p = not_first first name e (some-injective first name p)
    not_before (suc j) lt p = none_before j (omega arith) p

find_name-IsFirstOfAll :
    (names : List Bytes) (name : Bytes) → IsFirstOfAll names name (find_name name names)
unfolding find_name
find_name-IsFirstOfAll [] name = λ j p. absurd (cc)
find_name-IsFirstOfAll (first ∷ names) name = elim (Bool-cases (bytes_eq first name)) [
  | inl e ↦ rw e (ap some (bytes_eq→eq first name e), λ j lt. absurd (omega arith))
  | inr e ↦ rw e (behind-IsFirstOfAll first names name _ e (find_name-IsFirstOfAll names name))
]

index_within-IsFirst :
    (names : List Bytes) (size : ℕ) (name : Bytes) (index : Option ℕ)
    → IsFirstOfAll names name index
    → IsFirst names size name (index_within size index)
unfolding index_within
index_within-IsFirst names size name none h = λ j lt. h j
index_within-IsFirst names size name (some i) (at, none_before) = elim (Bool-cases (leb size i)) [
  | inl e ↦ rw e (λ j lt. let le = leb→le size i e in none_before j (omega arith))
  | inr e ↦ rw e (leb-false→lt size i e, at, none_before)
]

-- The index of a member of an array is that of the first of its names that is the member's, if it is
-- below the size of the array; else there is none, and none of the names within the size is it.
pub get_member_index-IsFirst :
    (members : List Bytes) (size : ℕ) (member : Bytes)
    → IsFirst members size member (get_member_index members size member)
unfolding get_member_index
get_member_index-IsFirst members size member =
    index_within-IsFirst members size member _ (find_name-IsFirstOfAll members member)
