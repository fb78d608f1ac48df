-- ===== src/Tests/Fixtures.antt =====
-- Small stand-ins for serde_json, for http and http-body-util, for the clock and for the host.
use mathlib.Core.Bool.{true}
use docker_socket_proxy.Common.{
  false, Bool, leb, ◌+◌, ◌⊎◌, to_ascii_lowercase, ap, ℕ, ◌≤◌, List, [], ◌∷◌, Option, none, some,
  map, ltb, if◌then◌else◌, length, Member, Str, codes, str_eq, str_eq_iff, ◌≡◌, ◌≢◌, ◌↔◌, inl, inr,
  refl, sym, arith, Bool-cases,
}
use docker_socket_proxy.Proxy.Drain.{Timer}
use docker_socket_proxy.Http.{Headers, HeaderMaps, first_of}
use docker_socket_proxy.Security.Body.{Json, Shape, string, object}
use docker_socket_proxy.Middleware.{Bodies, Collected, collected, length_limit, read_error}
use docker_socket_proxy.Policy.Loader.{Host, value}
use docker_socket_proxy.Policy.Document.{empty}

-- A text, or a map of texts.
pub data Sample : Type 0 where
  text : Str → Sample
  fields : List (Str × Str) → Sample

abbrev pub look : List (Str × Str) → Str → Option Sample
look [] key = none
look ((k, v) ∷ rest) key = if str_eq k key then some (text v) else look rest key

abbrev pub first : Str × Str → Str
first entry = entry.0

pub look_iff : (o : List (Str × Str)) (key : Str) → Member key (map first o) ↔ (look o key ≢ none)
look_iff [] key = ((λ m. absurd m), (λ n. absurd (n refl)))
look_iff ((k, v) ∷ rest) key = elim (Bool-cases (str_eq k key)) [
  | inl e ↦ ((λ _. rw e (λ h. cc)), (λ _. inl (sym ((str_eq_iff k key).0 e))))
  | inr e ↦ (
    (λ m. elim m [
      | inl same ↦ cc ((str_eq_iff k key).1 (sym same))
      | inr there ↦ rw e ((look_iff rest key).0 there)
    ]),
    (λ n. inr ((look_iff rest key).1 (rw e at n))),
  )
]

abbrev pub sample_shape : Sample → Shape Sample (List (Str × Str))
sample_shape (text s) = string s
sample_shape (fields o) = object o

abbrev pub create_body : Str
create_body = codes "{\"Image\":\"alpine\"}"

abbrev pub json : Json
json = record {
  Value = Sample;
  Object = List (Str × Str);
  from_slice = λ s.
      if str_eq s create_body then some (fields ((codes "Image", codes "alpine") ∷ [])) else none;
  shape = sample_shape;
  get = look;
  keys = map first;
  keys_get = look_iff;
}

abbrev pub limit_to : ℕ → Collected → Collected
limit_to max (collected s) = if ltb max (length s) then length_limit else collected s
limit_to max length_limit = length_limit
limit_to max (read_error e) = read_error e

pub limit_to-length :
    (max : ℕ) (b : Collected) (s : Str) → limit_to max b ≡ collected s → length s ≤ max
limit_to-length max (collected t) s h = elim (Bool-cases (ltb max (length t))) [
  | inl over ↦ cc (rw over at h)
  | inr within ↦ fits t s (rw within at h) (ground arith)
]
  where
    fits : (t s : Str) → collected t ≡ collected s → length t ≤ max → length s ≤ max
    fits t s e h = rw (← unwrap t s e) h
      where
        unwrap : (t s : Str) → collected t ≡ collected s → t ≡ s
        unwrap t s e = cc
limit_to-length max length_limit s h = cc
limit_to-length max (read_error e) s h = cc

abbrev pub bodies : Bodies
bodies = record {
  Body = Collected;
  limited = limit_to;
  collect = λ b. b;
  from_bytes = collected;
  collect-limited = limit_to-length;
  collect-from_bytes = λ s. refl;
}

-- Each file excludes `/info`.
abbrev pub host : Host
host = record {
  read_to_string = λ path. value [];
  toml_from_str = λ contents. value (record empty {
    exclude = some record { methods = none; endpoints = some (codes "/info" ∷ []) };
  });
  yaml_from_str = λ contents. value empty;
  has_yaml = true;
  debug_str = λ s. s;
}

-- A header map as the list of its entries.
abbrev pub values_of : Headers → Str → List Str
values_of [] name = []
values_of ((k, v) ∷ hs) name =
    let rest = values_of hs name in if str_eq k name then v ∷ rest else rest

pub values_of_iff :
    (hs : Headers) (name v : Str)
    → to_ascii_lowercase name ≡ name
    → Member v (values_of hs name) ↔ Member (name, v) hs
values_of_iff [] name v lower = ((λ m. absurd m), (λ m. absurd m))
values_of_iff ((k, w) ∷ hs) name v lower = elim (Bool-cases (str_eq k name)) [
  | inl hit ↦
      let same = (str_eq_iff k name).0 hit in
      rw hit (
        (λ m. elim m [
          | inl e ↦ inl (cc (e, same))
          | inr later ↦ inr ((values_of_iff hs name v lower).0 later)
        ]),
        (λ m. elim m [
          | inl e ↦ inl (ap (λ p. p.1) e)
          | inr later ↦ inr ((values_of_iff hs name v lower).1 later)
        ]),
      )
  | inr miss ↦ rw miss (
    (λ m. inr ((values_of_iff hs name v lower).0 m)),
    (λ m. elim m [
      | inl e ↦ cc ((str_eq_iff k name).1 (sym (ap (λ p. p.0) e)), miss)
      | inr later ↦ (values_of_iff hs name v lower).1 later
    ]),
  )
]

pub readable_same : (v text : Str) → some v ≡ some text → text ≡ v
readable_same v t e = cc

pub status_same : (n m : ℕ) → some n ≡ some m → m ≡ n
status_same n m e = cc

abbrev pub http : HeaderMaps
http = record {
  HeaderMap = Headers;
  iter = λ hs. hs;
  get = λ hs name. first_of (values_of hs name);
  get_all = values_of;
  to_str = some;
  from_u16 = some;
  request_error = λ method target headers. none;
  response_error = λ status headers. none;
  get_all_iff = values_of_iff;
  get_first = λ hs name. refl;
  to_str_same = readable_same;
  from_u16_same = status_same;
}

-- A clock without delays; a task is the time at which it ends, if it does.
abbrev pub wait_for : ℕ → ℕ → Option ℕ → ℕ × Bool
wait_for now window none = (now + window, true)
wait_for now window (some end) =
    if leb end now
    then (now, false)
    else if ltb end (now + window)
    then (end, false)
    else (now + window, true)

pub wait_begins : (now window : ℕ) (task : Option ℕ) → now ≤ (wait_for now window task).0
wait_begins now window none = omega arith
wait_begins now window (some end) = ground arith

pub wait_bounded : (now window : ℕ) (task : Option ℕ) → (wait_for now window task).0 ≤ now + window
wait_bounded now window none = omega arith
wait_bounded now window (some end) = ground arith

pub wait_elapsed :
    (now window : ℕ) (task : Option ℕ)
    → (wait_for now window task).1 ≡ true
    → (now + window ≤ (wait_for now window task).0)
      × ((task ≡ none) ⊎ ((end : ℕ) × (task ≡ some end) × (now + window ≤ end)))
wait_elapsed now window none h = (omega arith, inl refl)
wait_elapsed now window (some end) h = (ground arith, inr (end, refl, ground arith))

pub wait_ended :
    (now window : ℕ) (task : Option ℕ)
    → (wait_for now window task).1 ≡ false
    → (end : ℕ) × (task ≡ some end) × (end ≤ (wait_for now window task).0)
wait_ended now window none h = cc
wait_ended now window (some end) h = (end, refl, ground arith)

pub wait_hung :
    (now window : ℕ) (task : Option ℕ) → task ≡ none → (wait_for now window task).1 ≡ true
wait_hung now window none h = refl
wait_hung now window (some end) h = cc

abbrev pub timer : Timer
timer = record {
  Task = Option ℕ;
  ends = λ task. task;
  timeout = wait_for;
  timeout_begins = wait_begins;
  timeout_bounded = wait_bounded;
  timeout_elapsed = wait_elapsed;
  timeout_ended = wait_ended;
  timeout_hung = wait_hung;
}
