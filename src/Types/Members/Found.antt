-- ===== src/Types/Members/Found.antt =====
-- The way from a type along its aliases and pointers to the type that has the members, for
-- `get_member` of src/type.cpp.
use pars_c.Common.{
  Bool, Bytes, List, Option, ap, arith, none, refl, some, suc, zero, ℕ, ◌<◌, ◌≡◌, sym,
}
use mathlib.Core.Path.{subst}
use pars_c.Types.{TypeNode, TypeStore, alias, char, pointer, str, void_pointer}
use pars_c.Types.Members.{
  MemberInfo, Method, get_member, impl_method, member_of, own_member, Lookup,
}
use pars_c.Types.Ranks.{Ranked, Under}

-- The way from a type along its aliases and pointers.
pub data Leads (t : TypeStore) : ℕ → ℕ → Type 0 where
  here : (a : ℕ) → Leads t a a
  by_alias :
      (a type b : ℕ) (name : Bytes) (is_distinct : Bool)
      → t.node a ≡ alias name is_distinct type
      → Leads t type b
      → Leads t a b
  by_pointer : (a inner b : ℕ) → t.node a ≡ pointer inner → Leads t inner b → Leads t a b
  by_void_pointer : (a inner b : ℕ) → t.node a ≡ void_pointer inner → Leads t inner b → Leads t a b
  by_str : (a b : ℕ) → t.node a ≡ str → Leads t t.char_type b → Leads t a b

abbrev pub IsEnd : TypeNode → Type 0
IsEnd (alias name is_distinct type) = ⊥
IsEnd (pointer inner) = ⊥
IsEnd (void_pointer inner) = ⊥
IsEnd str = ⊥
IsEnd _ = Unit

-- The type at the end has `member` as its own, or has none.
abbrev pub OwnsAt : TypeStore → ℕ → Bytes → Option MemberInfo → Type 0
OwnsAt t a symbol member =
    (b : ℕ) × Leads t a b × IsEnd (t.node b) × (own_member (t.node b) symbol ≡ member)

-- A type on the way has the method in its `impl`.
abbrev pub DeclaresAt : TypeStore → (ℕ → Option (List Method)) → ℕ → Bytes → MemberInfo → Type 0
DeclaresAt t impl a symbol member =
    (b : ℕ) × Leads t a b × (impl_method symbol (impl b) ≡ some member)

abbrev pub MemberFound : TypeStore → ℕ → Bytes → Lookup → Type 0
MemberFound t a symbol none = ⊥
MemberFound t a symbol (some member) = OwnsAt t a symbol member

module _ (t : TypeStore) (rank : ℕ → ℕ) (ranked : Ranked t rank) (symbol : Bytes) where
  behind-MemberFound :
      (a c : ℕ) (member : Lookup)
      → ((b : ℕ) → Leads t c b → Leads t a b)
      → MemberFound t c symbol member
      → MemberFound t a symbol member
  behind-MemberFound a c none way h = h
  behind-MemberFound a c (some member) way (b, leads, is_end, owns) = (b, way b leads, is_end, owns)

  own-MemberFound :
      (a : ℕ) (node : TypeNode)
      → t.node a ≡ node
      → IsEnd node
      → MemberFound t a symbol (some (own_member node symbol))
  own-MemberFound a node e h = (a, here a, subst IsEnd (sym e) h, ap (λ x. own_member x symbol) e)

  member_of-MemberFound :
      (a : ℕ) (next : ℕ → Lookup) (node : TypeNode)
      → t.node a ≡ node
      → Under rank (rank a) node
      → ((c : ℕ) → rank c < rank a → MemberFound t c symbol (next c))
      → MemberFound t t.char_type symbol (next t.char_type)
      → MemberFound t a symbol (member_of t next node symbol)
  unfolding member_of
  member_of-MemberFound a next (alias name d type) e u h k =
      behind-MemberFound a type (next type) (λ b way. by_alias a type b name d e way) (h type u)
  member_of-MemberFound a next (pointer inner) e u h k =
      behind-MemberFound a inner (next inner) (λ b way. by_pointer a inner b e way) (h inner u)
  member_of-MemberFound a next (void_pointer inner) e u h k =
      behind-MemberFound a inner (next inner) (λ b way. by_void_pointer a inner b e way) (h inner u)
  member_of-MemberFound a next str e u h k =
      behind-MemberFound a t.char_type (next t.char_type) (λ b way. by_str a b e way) k
  member_of-MemberFound a next node e u h k = own-MemberFound a node e tt

  char-MemberFound :
      (n bits : ℕ) (s : Bool)
      → t.node t.char_type ≡ char bits s
      → 0 < n
      → MemberFound t t.char_type symbol (get_member t n t.char_type symbol)
  unfolding get_member member_of
  char-MemberFound zero bits s e lt = absurd (omega arith)
  char-MemberFound (suc n) bits s e lt = rw e (own-MemberFound t.char_type (char bits s) e tt)

  pub get_member-MemberFound :
      (bits : ℕ) (s : Bool)
      → t.node t.char_type ≡ char bits s
      → (n a : ℕ) → suc (rank a) < n
      → MemberFound t a symbol (get_member t n a symbol)
  unfolding get_member
  get_member-MemberFound bits s e zero a lt = absurd (omega arith)
  get_member-MemberFound bits s e (suc n) a lt =
      member_of-MemberFound a _ (t.node a) refl (ranked.below a)
        (λ c less. get_member-MemberFound bits s e n c (omega arith))
        (char-MemberFound n bits s e (omega arith))
