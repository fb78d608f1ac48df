-- ===== src/Tests/Unit.antt =====
-- The unit tests of the source files, and tests/api_surface.rs and tests/examples.rs, on the model: each
-- test function is a Boolean of its name, the conjunction of its assertions, and each file says that
-- its tests pass.
mod Values
pub mod Bodies
mod Profiles
mod Patterns
mod Creates
mod Paths
mod Policies
mod Loads
mod Compats
mod Examples
mod Errors
mod Metrics
mod Headers
mod Responses
mod Files
mod Shipped
mod Surface
use docker_socket_proxy.Common.{
  not, Bool, true, false, List, String, Str, codes, all, [], ◌∷◌, ◌||◌, starts_with, is_empty,
}
use docker_socket_proxy.Error.{Result, ok, err, ProxyError, display}
use docker_socket_proxy.Security.Profile.{SecurityFilter}
use docker_socket_proxy.Security.Filter.{check}

-- `is_ok()`
abbrev pub is_ok {ℓ} : {A : Type ℓ} → Result A → Bool
is_ok (ok a) = true
is_ok (err e) = false

-- `assert!` of each
abbrev pub asserts : List Bool → Bool
asserts assertions = all (λ b. b) assertions

-- `f.check(method, path).is_ok()`
abbrev pub permits : SecurityFilter → String → String → Bool
permits f method path = is_ok (check f (codes method) (codes path))

-- `f.check(method, path).is_err()`
abbrev pub refuses : SecurityFilter → String → String → Bool
refuses f method path = not (permits f method path)

-- `contains` of a text
abbrev pub has_text : Str → Str → Bool
has_text [] part = is_empty part
has_text (c ∷ s) part = starts_with (c ∷ s) part || has_text s part

-- `unwrap_err().to_string().contains(part)`
abbrev pub fails_with {ℓ} : {A : Type ℓ} → Result A → String → Bool
fails_with (ok a) part = false
fails_with (err e) part = has_text (display e) (codes part)
