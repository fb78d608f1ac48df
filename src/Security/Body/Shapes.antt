-- ===== src/Security/Body/Shapes.antt =====
-- What the tests on one JSON value decide.
use mathlib.Core.Path.{subst}
use mathlib.Core.List.{cons-ne-nil}
use docker_socket_proxy.Common.{
  Bool, true, false, [], ◌∷◌, Option, none, some, ◌≡◌, ◌≢◌, ◌⊎◌, ◌↔◌, inl, inr, refl, arith, Str,
  codes, str_eq, str_eq_iff,
}
use docker_socket_proxy.Error.{ok}
use docker_socket_proxy.Security.Body.{
  Shape, null, number, bool, string, array, object, shape_object, shape_str, is_some_and, and_then,
  set_shape, check_image,
}

-- A value that reads as "do not change this".
pub data IsUnset {V O : Type 0} (sh : Shape V O) : Type 0 where
  null_value : sh ≡ null → IsUnset sh
  false_value : sh ≡ bool false → IsUnset sh
  no_items : sh ≡ array [] → IsUnset sh
  no_text : sh ≡ string [] → IsUnset sh

pub set_shape_iff : {V O : Type 0} (sh : Shape V O) → (set_shape sh ≡ false) ↔ IsUnset sh
unfolding set_shape
set_shape_iff null = ((λ _. null_value refl), (λ _. refl))
set_shape_iff number = (
  (λ h. cc),
  (λ h. elim h [ null_value e ↦ cc | false_value e ↦ cc | no_items e ↦ cc | no_text e ↦ cc ]),
)
set_shape_iff (bool false) = ((λ _. false_value refl), (λ _. refl))
set_shape_iff (bool true) = (
  (λ h. cc),
  (λ h. elim h [ null_value e ↦ cc | false_value e ↦ cc | no_items e ↦ cc | no_text e ↦ cc ]),
)
set_shape_iff (string []) = ((λ _. no_text refl), (λ _. refl))
set_shape_iff (string (c ∷ s)) = (
  (λ h. cc),
  (λ h. elim h [ null_value e ↦ cc | false_value e ↦ cc | no_items e ↦ cc | no_text e ↦ cc ]),
)
set_shape_iff (array []) = ((λ _. no_items refl), (λ _. refl))
set_shape_iff (array (c ∷ s)) = (
  (λ h. cc),
  (λ h. elim h [ null_value e ↦ cc | false_value e ↦ cc | no_items e ↦ cc | no_text e ↦ cc ]),
)
set_shape_iff (object o) = (
  (λ h. cc),
  (λ h. elim h [ null_value e ↦ cc | false_value e ↦ cc | no_items e ↦ cc | no_text e ↦ cc ]),
)

pub shape_object_iff :
    {V O : Type 0} (sh : Shape V O) (o : O) → (shape_object sh ≡ some o) ↔ (sh ≡ object o)
shape_object_iff sh o = ground arith

pub shape_str_iff :
    {V O : Type 0} (sh : Shape V O) (s : Str) → (shape_str sh ≡ some s) ↔ (sh ≡ string s)
shape_str_iff sh s = ground arith

pub and_then_iff :
    {A B : Type 0} (o : Option A) (f : A → Option B) (b : B)
    → (and_then o f ≡ some b) ↔ ((a : A) × (o ≡ some a) × (f a ≡ some b))
and_then_iff none f b = ((λ h. cc), (λ h. cc (h.1)))
and_then_iff (some a) f b =
    ((λ h. (a, refl, h)), (λ h. subst (λ x. f x ≡ some b) (some_inj h.1) h.2))
  where
    some_inj : {A : Type 0} {x y : A} → some x ≡ some y → y ≡ x
    some_inj e = cc

pub some_and-false_iff :
    {A : Type 0} (o : Option A) (p : A → Bool)
    → (is_some_and o p ≡ false) ↔ ((o ≡ none) ⊎ ((a : A) × (o ≡ some a) × (p a ≡ false)))
some_and-false_iff none p = ((λ _. inl refl), (λ _. refl))
some_and-false_iff (some a) p = (
  (λ h. inr (a, refl, h)),
  (λ h. elim h [ inl e ↦ cc | inr found ↦ subst (λ x. p x ≡ false) (cc (found.1)) found.2 ]),
)

pub same_some : {A : Type 0} {o : Option A} {x y : A} → o ≡ some x → o ≡ some y → x ≡ y
same_some p q = cc

pub check_image_iff :
    (o : Option Str) → (check_image o ≡ ok tt) ↔ ((s : Str) × (o ≡ some s) × (s ≢ []))
unfolding check_image
check_image_iff none = ((λ h. cc), (λ h. cc (h.1)))
check_image_iff (some []) = ((λ h. cc), (λ h. absurd (h.2 (same_some h.1 refl))))
check_image_iff (some (c ∷ s)) = ((λ _. (c ∷ s, refl, cons-ne-nil c s)), (λ _. refl))

pub none_is : (o : Option Str) → o ≡ none → is_some_and o (λ m. str_eq m (codes "host")) ≡ true → ⊥
none_is o e h = ground arith

pub is_host :
    (o : Option Str) (m : Str)
    → o ≡ some m
    → is_some_and o (λ m. str_eq m (codes "host")) ≡ true
    → m ≡ codes "host"
is_host o m e h = (str_eq_iff m (codes "host")).0 (ground arith)

pub holds :
    (o : Option Str) → o ≡ some (codes "host") → is_some_and o (λ m. str_eq m (codes "host")) ≡ true
holds o e = ground (arith, str_eq_iff (codes "host") (codes "host"))

pub not_true : (b : Bool) → ¬ (b ≡ true) → b ≡ false
not_true b h = ground arith
