-- ===== src/Tests/Unit/Values.antt =====
-- JSON values with nested lists and maps, as a stand-in for those of serde_json.
use docker_socket_proxy.Common.{
  Bool, List, [], ◌∷◌, Option, none, some, Member, Str, str_eq, str_eq_iff, if◌then◌else◌, ◌≢◌, ◌↔◌,
  inl, inr, refl, sym, Bool-cases,
}
use docker_socket_proxy.Security.Body.{Shape, null, number, bool, string, array, object}

mutual
  pub data Value : Type 0 where
    nothing count : Value
    flag : Bool → Value
    text : Str → Value
    several : Elements → Value
    fields : Members → Value

  pub data Elements : Type 0 where
    no_element : Elements
    element : Value → Elements → Elements

  pub data Members : Type 0 where
    no_member : Members
    member : Str → Value → Members → Members

abbrev pub values_of : Elements → List Value
values_of no_element = []
values_of (element v rest) = v ∷ values_of rest

abbrev pub shape_of : Value → Shape Value Members
shape_of nothing = null
shape_of count = number
shape_of (flag b) = bool b
shape_of (text s) = string s
shape_of (several vs) = array (values_of vs)
shape_of (fields o) = object o

abbrev pub look : Members → Str → Option Value
look no_member key = none
look (member k v rest) key = if str_eq k key then some v else look rest key

abbrev pub names : Members → List Str
names no_member = []
names (member k v rest) = k ∷ names rest

pub look_iff : (o : Members) (key : Str) → Member key (names o) ↔ (look o key ≢ none)
look_iff no_member key = ((λ m. absurd m), (λ n. absurd (n refl)))
look_iff (member k v rest) key = elim (Bool-cases (str_eq k key)) [
  | inl e ↦ ((λ _. rw e (λ h. cc)), (λ _. inl (sym ((str_eq_iff k key).0 e))))
  | inr e ↦ (
    (λ m. elim m [
      | inl same ↦ cc ((str_eq_iff k key).1 (sym same))
      | inr there ↦ rw e ((look_iff rest key).0 there)
    ]),
    (λ n. inr ((look_iff rest key).1 (rw e at n))),
  )
]
