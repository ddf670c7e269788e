-- ===== src/Types/Members/Accessed.antt =====
-- Methods and members of src/type.cpp by way of the access by an arrow of src/analyzer.cpp.
use pars_c.Common.{
  Bool, Bytes, List, Option, arith, false, inl, inr, none, refl, some, suc, true, zero, ℕ, ◌<◌, ◌≡◌,
  ◌∙◌, ◌⊎◌, sym,
}
use mathlib.Core.Option.{some-injective}
use mathlib.Core.Path.{subst}
use pars_c.Types.{TypeNode, TypeStore, alias, char, enum, pointer, str, struct, void_pointer}
use pars_c.Types.Members.{
  Access, MemberInfo, Method, access_member, accessed, found, get_method, impl_method, method_of,
  no_fuel, no_member, or_field, own_or, Lookup,
}
use pars_c.Types.Members.Found.{
  Leads, MemberFound, OwnsAt, by_alias, by_pointer, by_str, by_void_pointer, here,
  get_member-MemberFound,
}
use pars_c.Types.Ranks.{Ranked, Under}

-- `UserDefType::classof`
abbrev pub IsUserDef : TypeNode → Type 0
IsUserDef (alias name is_distinct type) = Unit
IsUserDef (struct name fields) = Unit
IsUserDef (enum name variants) = Unit
IsUserDef _ = ⊥

-- A type on the way has the method in its `impl`, and it is the first one: every other type on the way
-- that has one too lies behind it.
abbrev pub DeclaresAt : TypeStore → (ℕ → Option (List Method)) → ℕ → Bytes → MemberInfo → Type 0
DeclaresAt t impl a symbol member =
    (b : ℕ) × Leads t a b
    × IsUserDef (t.node b)
    × (impl_method symbol (impl b) ≡ some member)
    × ((c : ℕ)
        → Leads t a c
        → IsUserDef (t.node c)
        → (impl_method symbol (impl c) ≡ none) ⊎ Leads t b c)

-- No type on the way has one.
abbrev pub DeclaresNone : TypeStore → (ℕ → Option (List Method)) → ℕ → Bytes → Type 0
DeclaresNone t impl a symbol =
    (b : ℕ) → Leads t a b → IsUserDef (t.node b) → impl_method symbol (impl b) ≡ none

abbrev pub MethodFound : TypeStore → (ℕ → Option (List Method)) → ℕ → Bytes → Lookup → Type 0
MethodFound t impl a symbol none = ⊥
MethodFound t impl a symbol (some none) = DeclaresNone t impl a symbol
MethodFound t impl a symbol (some (some member)) = DeclaresAt t impl a symbol member

abbrev pub AccessFound : TypeStore → (ℕ → Option (List Method)) → ℕ → Bool → Bytes → Access → Type 0
AccessFound t impl a is_call symbol no_fuel = ⊥
AccessFound t impl a is_call symbol no_member =
    OwnsAt t a symbol none × (is_call ≡ true → DeclaresNone t impl a symbol)
AccessFound t impl a is_call symbol (found member true) =
    (is_call ≡ true) × DeclaresAt t impl a symbol member
AccessFound t impl a is_call symbol (found member false) =
    OwnsAt t a symbol (some member) × (is_call ≡ true → DeclaresNone t impl a symbol)

-- The type behind one step of the way, with `char_type` for the characters of a `str`
step : ℕ → TypeNode → Option ℕ
step char_type (alias name is_distinct type) = some type
step char_type (pointer inner) = some inner
step char_type (void_pointer inner) = some inner
step char_type str = some char_type
step char_type _ = none

module _ (t : TypeStore) (impl : ℕ → Option (List Method)) (symbol : Bytes) where
  Leads-step :
      (a b : ℕ)
      → Leads t a b
      → (a ≡ b) ⊎ ((c : ℕ) × (step t.char_type (t.node a) ≡ some c) × Leads t c b)
  unfolding step
  Leads-step a b (here _) = inl refl
  Leads-step a b (by_alias _ type _ name d e way) = inr (type, rw e, way)
  Leads-step a b (by_pointer _ inner _ e way) = inr (inner, rw e, way)
  Leads-step a b (by_void_pointer _ inner _ e way) = inr (inner, rw e, way)
  Leads-step a b (by_str _ _ e way) = inr (t.char_type, rw e, way)

  -- None on the rest of the way, and none here
  none-behind :
      (a c : ℕ)
      → step t.char_type (t.node a) ≡ some c
      → (IsUserDef (t.node a) → impl_method symbol (impl a) ≡ none)
      → DeclaresNone t impl c symbol
      → DeclaresNone t impl a symbol
  none-behind a c e here_none h b way k = elim (Leads-step a b way) [
    | inl same ↦
        subst (λ x. impl_method symbol (impl x) ≡ none) same
          (here_none (subst (λ x. IsUserDef (t.node x)) (sym same) k))
    | inr (d, e', rest) ↦ h b (subst (λ x. Leads t x b) (some-injective d c (sym e' ∙ e)) rest) k
  ]

  none_at_end :
      (a : ℕ)
      → step t.char_type (t.node a) ≡ none
      → (IsUserDef (t.node a) → impl_method symbol (impl a) ≡ none)
      → DeclaresNone t impl a symbol
  none_at_end a e here_none b way k = elim (Leads-step a b way) [
    | inl same ↦
        subst (λ x. impl_method symbol (impl x) ≡ none) same
          (here_none (subst (λ x. IsUserDef (t.node x)) (sym same) k))
    | inr (d, e', rest) ↦ absurd (cc)
  ]

  -- The first one on the rest of the way is the first one, with none here
  first-behind :
      (a c b : ℕ)
      → step t.char_type (t.node a) ≡ some c
      → (IsUserDef (t.node a) → impl_method symbol (impl a) ≡ none)
      → ((d : ℕ)
          → Leads t c d
          → IsUserDef (t.node d)
          → (impl_method symbol (impl d) ≡ none) ⊎ Leads t b d)
      → (d : ℕ) → Leads t a d
      → IsUserDef (t.node d)
      → (impl_method symbol (impl d) ≡ none) ⊎ Leads t b d
  first-behind a c b e here_none h d way k = elim (Leads-step a d way) [
    | inl same ↦ inl (
        subst (λ x. impl_method symbol (impl x) ≡ none) same
          (here_none (subst (λ x. IsUserDef (t.node x)) (sym same) k)))
    | inr (x, e', rest) ↦ h d (subst (λ y. Leads t y d) (some-injective x c (sym e' ∙ e)) rest) k
  ]

  behind-MethodFound :
      (a c : ℕ) (method : Lookup)
      → step t.char_type (t.node a) ≡ some c
      → (IsUserDef (t.node a) → impl_method symbol (impl a) ≡ none)
      → ((b : ℕ) → Leads t c b → Leads t a b)
      → MethodFound t impl c symbol method
      → MethodFound t impl a symbol method
  behind-MethodFound a c none e here_none way h = h
  behind-MethodFound a c (some none) e here_none way h = none-behind a c e here_none h
  behind-MethodFound a c (some (some member)) e here_none way (b, leads, k, declares, first) =
      (b, way b leads, k, declares, first-behind a c b e here_none first)

  -- A type with an `impl` of its own, at the end of the way
  own-MethodFound :
      (a : ℕ) (own : Option MemberInfo)
      → step t.char_type (t.node a) ≡ none
      → IsUserDef (t.node a)
      → impl_method symbol (impl a) ≡ own
      → MethodFound t impl a symbol (some own)
  own-MethodFound a none e k p = none_at_end a e (λ _. p)
  own-MethodFound a (some member) e k p = (a, here a, k, p, λ c way h. inr way)

  alias-MethodFound :
      (a type : ℕ) (name : Bytes) (d : Bool) (next : Lookup) (own : Option MemberInfo)
      → t.node a ≡ alias name d type
      → impl_method symbol (impl a) ≡ own
      → MethodFound t impl type symbol next
      → MethodFound t impl a symbol (own_or own next)
  unfolding own_or step
  alias-MethodFound a type name d next none e p h =
      behind-MethodFound a type next (rw e) (λ _. p) (λ b way. by_alias a type b name d e way) h
  alias-MethodFound a type name d next (some member) e p h =
      (a, here a, subst IsUserDef (sym e) tt, p, λ c way h. inr way)

  module _ (rank : ℕ → ℕ) (ranked : Ranked t rank) where
    method_of-MethodFound :
        (a : ℕ) (next : ℕ → Lookup) (node : TypeNode)
        → t.node a ≡ node
        → Under rank (rank a) node
        → ((c : ℕ) → rank c < rank a → MethodFound t impl c symbol (next c))
        → MethodFound t impl t.char_type symbol (next t.char_type)
        → MethodFound t impl a symbol (method_of t impl next a node symbol)
    unfolding method_of step
    method_of-MethodFound a next (alias name d type) e u h k =
        alias-MethodFound a type name d (next type) _ e refl (h type u)
    method_of-MethodFound a next (pointer inner) e u h k =
        behind-MethodFound a inner (next inner) (rw e) (λ v. absurd (subst IsUserDef e v))
          (λ b way. by_pointer a inner b e way) (h inner u)
    method_of-MethodFound a next (void_pointer inner) e u h k =
        behind-MethodFound a inner (next inner) (rw e) (λ v. absurd (subst IsUserDef e v))
          (λ b way. by_void_pointer a inner b e way) (h inner u)
    method_of-MethodFound a next str e u h k =
        behind-MethodFound a t.char_type (next t.char_type) (rw e)
          (λ v. absurd (subst IsUserDef e v)) (λ b way. by_str a b e way) k
    method_of-MethodFound a next (struct name fields) e u h k =
        own-MethodFound a _ (rw e) (subst IsUserDef (sym e) tt) refl
    method_of-MethodFound a next (enum name variants) e u h k =
        own-MethodFound a _ (rw e) (subst IsUserDef (sym e) tt) refl
    method_of-MethodFound a next node e u h k =
        none_at_end a (rw e) (λ v. absurd (subst IsUserDef e v))

    char-MethodFound :
        (n bits : ℕ) (s : Bool)
        → t.node t.char_type ≡ char bits s
        → 0 < n
        → MethodFound t impl t.char_type symbol (get_method t impl n t.char_type symbol)
    unfolding get_method method_of step
    char-MethodFound zero bits s e lt = absurd (omega arith)
    char-MethodFound (suc n) bits s e lt =
        rw e (none_at_end t.char_type (rw e) (λ v. absurd (subst IsUserDef e v)))

    get_method-MethodFound :
        (bits : ℕ) (s : Bool)
        → t.node t.char_type ≡ char bits s
        → (n a : ℕ) → suc (rank a) < n
        → MethodFound t impl a symbol (get_method t impl n a symbol)
    unfolding get_method
    get_method-MethodFound bits s e zero a lt = absurd (omega arith)
    get_method-MethodFound bits s e (suc n) a lt =
        method_of-MethodFound a _ (t.node a) refl (ranked.below a)
          (λ c less. get_method-MethodFound bits s e n c (omega arith))
          (char-MethodFound n bits s e (omega arith))

    accessed-Found :
        (a : ℕ) (is_call : Bool) (member : Lookup)
        → (is_call ≡ true → DeclaresNone t impl a symbol)
        → MemberFound t a symbol member
        → AccessFound t impl a is_call symbol (accessed false member)
    unfolding accessed
    accessed-Found a is_call none h k = k
    accessed-Found a is_call (some none) h k = (k, h)
    accessed-Found a is_call (some (some member)) h k = (k, h)

    or_field-Found :
        (a : ℕ) (method member : Lookup)
        → MethodFound t impl a symbol method
        → MemberFound t a symbol member
        → AccessFound t impl a true symbol (or_field method (accessed false member))
    unfolding or_field
    or_field-Found a none member h k = h
    or_field-Found a (some none) member h k = accessed-Found a true member (λ _. h) k
    or_field-Found a (some (some method)) member h k = (refl, h)

    -- Where no type contains itself, with fuel for the types on the way, an access by an arrow ends. A
    -- call finds the method of the first type on the way along the aliases and pointers that declares
    -- it, or, if none does, and for what is not a call, the member of the type at the end; there is no
    -- member only if that type has none.
    pub access_member-Found :
        (bits : ℕ) (s : Bool)
        → t.node t.char_type ≡ char bits s
        → (n a : ℕ) (is_call : Bool) → suc (rank a) < n
        → AccessFound t impl a is_call symbol (access_member t impl n is_call a symbol)
    unfolding access_member
    access_member-Found bits s e n a true lt =
        or_field-Found a _ _ (get_method-MethodFound bits s e n a lt)
          (get_member-MemberFound t rank ranked symbol bits s e n a lt)
    access_member-Found bits s e n a false lt =
        accessed-Found a false _ (λ p. absurd (cc))
          (get_member-MemberFound t rank ranked symbol bits s e n a lt)
