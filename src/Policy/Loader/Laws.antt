-- ===== src/Policy/Loader/Laws.antt =====
-- What the loaded filter is made of, and what no source can undo.
use mathlib.Core.Path.{subst}
use docker_socket_proxy.Common.{
  to_ascii_lowercase, false, true, Option, none, some, ◌≡◌, ◌≢◌, ◌⊎◌, ◌↔◌, inl, inr, refl, sym, ap,
  ◌∙◌, arith, Bool-cases, Member, Str, codes, str_eq, str_eq_iff,
}
use docker_socket_proxy.Config.{SecurityProfile, read_only}
use docker_socket_proxy.Error.{ProxyError, forbidden, ok, err, >>=-eq-ok}
use docker_socket_proxy.Security.Profile.{SecurityFilter, for_profile}
use docker_socket_proxy.Security.Profile.Grants.{all_writes, read_only_denies}
use docker_socket_proxy.Security.Rules.Laws.{RulesApply}
use docker_socket_proxy.Security.Filter.{reason, check}
use docker_socket_proxy.Security.Filter.Decision.{excluded, check_err_iff, check_iff}
use docker_socket_proxy.Security.Percent.{is_utf8}
use docker_socket_proxy.Policy.Document.{PolicyDocument}
use docker_socket_proxy.Policy.Environment.{Env}
use docker_socket_proxy.Policy.Compat.{compatibility_filter, is_default}
use docker_socket_proxy.Policy.Merge.{SetApplies, EnvApplies, merged, merged_iff}
use docker_socket_proxy.Policy.Loader.{
  Answer, value, failed, Host, extension, lower_extension, invalid_document, parse_yaml, parse_as,
  parse_document, load_document, base_filter, load,
}

err_ne_ok : {A : Type 0} (e : ProxyError) (a : A) → err e ≢ ok a
err_ne_ok e a h = cc

module _ (host : Host) where
  -- The file is parsed as its extension says; an extension is compared without regard to case.
  pub data ParsedAs (path contents : Str) (d : PolicyDocument) : Type 0 where
    as_yaml :
        (e : Str)
        → extension path ≡ some e
        → (to_ascii_lowercase e ≡ codes "yaml") ⊎ (to_ascii_lowercase e ≡ codes "yml")
        → host.has_yaml ≡ true
        → host.yaml_from_str contents ≡ value d
        → ParsedAs path contents d
    as_toml :
        (e : Str)
        → extension path ≡ some e
        → to_ascii_lowercase e ≡ codes "toml"
        → host.toml_from_str contents ≡ value d
        → ParsedAs path contents d
    no_extension :
        extension path ≡ none → host.toml_from_str contents ≡ value d → ParsedAs path contents d
    not_text :
        (e : Str)
        → extension path ≡ some e
        → is_utf8 e ≡ false
        → host.toml_from_str contents ≡ value d
        → ParsedAs path contents d

  invalid_document_iff :
      (path : Str) (a : Answer PolicyDocument) (d : PolicyDocument)
      → (invalid_document path a ≡ ok d) ↔ (a ≡ value d)
  unfolding invalid_document
  invalid_document_iff path (value x) d = ((λ h. cc), (λ h. cc))
  invalid_document_iff path (failed e) d = ((λ h. cc), (λ h. cc))

  parse_yaml_lem :
      (path contents : Str) (d : PolicyDocument)
      → parse_yaml host path contents ≡ ok d
      → (host.has_yaml ≡ true) × (host.yaml_from_str contents ≡ value d)
  unfolding parse_yaml
  parse_yaml_lem path contents d h = elim (Bool-cases host.has_yaml) [
    | inl on ↦ (on, (invalid_document_iff path _ d).0 (rw on at h))
    | inr off ↦ ground arith
  ]

  parse_as-some :
      (path contents : Str) (d : PolicyDocument) (e lower : Str)
      → extension path ≡ some e
      → to_ascii_lowercase e ≡ lower
      → parse_as host (some lower) path contents ≡ ok d
      → ParsedAs path contents d
  unfolding parse_as
  parse_as-some path contents d e lower is lowers h =
      elim (Bool-cases (str_eq lower (codes "yaml"))) [
        | inl y ↦
            let (feature, parsed) = parse_yaml_lem path contents d (rw y at h) in
            as_yaml e is (inl (lowers ∙ (str_eq_iff lower _).0 y)) feature parsed
        | inr not_yaml ↦ elim (Bool-cases (str_eq lower (codes "yml"))) [
          | inl y ↦
              let (feature, parsed) = parse_yaml_lem path contents d (rw (not_yaml, y) at h) in
              as_yaml e is (inr (lowers ∙ (str_eq_iff lower _).0 y)) feature parsed
          | inr not_yml ↦ elim (Bool-cases (str_eq lower (codes "toml"))) [
            | inl t ↦
                as_toml e is (lowers ∙ (str_eq_iff lower _).0 t)
                  ((invalid_document_iff path _ d).0 (rw (not_yaml, not_yml, t) at h))
            | inr not_toml ↦ absurd (err_ne_ok _ d (rw (not_yaml, not_yml, not_toml) at h))
          ]
        ]
      ]

  -- A file that is accepted was read by the parser of its extension, YAML where the build has it; a
  -- name without an extension is read as TOML, and so is one whose extension is not UTF-8.
  pub parse_document-ParsedAs :
      (path contents : Str) (d : PolicyDocument)
      → parse_document host path contents ≡ ok d
      → ParsedAs path contents d
  unfolding parse_document lower_extension
  parse_document-ParsedAs path contents d h = go (extension path) refl h
    where
      go :
          (o : Option Str)
          → extension path ≡ o
          → parse_as host (lower_extension o) path contents ≡ ok d
          → ParsedAs path contents d
      go none is k = no_extension is ((invalid_document_iff path _ d).0 (unfold parse_as in k))
      go (some e) is k = elim (Bool-cases (is_utf8 e)) [
        | inl text ↦ parse_as-some path contents d e (to_ascii_lowercase e) is refl (rw text at k)
        | inr other ↦
            not_text e is other
              ((invalid_document_iff path _ d).0 (unfold parse_as in rw other at k))
      ]

  load_iff :
      (file : Option Str) (profile : SecurityProfile) (env : Env) (f : SecurityFilter)
      → load host file profile env ≡ ok f
      → (d : PolicyDocument) × (load_document host file ≡ ok d)
        × ((c : Option SecurityFilter) × (compatibility_filter env profile ≡ ok c)
            × (f ≡ merged (base_filter profile c) d env))
  unfolding load
  load_iff file profile env f h =
      let (d, read, rest) = >>=-eq-ok (load_document host file) _ h in
      let (c, compat, same) = >>=-eq-ok (compatibility_filter env profile) _ rest in
      (d, read, (c, compat, ground arith))

  -- Where loading succeeds, what the document's exclude section or the exclude variables cover is
  -- refused as excluded, whatever the profile, the other sections and the other variables say.
  pub load-exclude :
      (file : Option Str) (profile : SecurityProfile) (env : Env) (f : SecurityFilter)
      (d : PolicyDocument) (method path : Str)
      → load host file profile env ≡ ok f
      → load_document host file ≡ ok d
      → SetApplies d.exclude method path ⊎ EnvApplies env (codes "EXCLUDE") method path
      → check f method path ≡ err (forbidden (reason (codes "excluded by policy: ") method path))
  load-exclude file profile env f d method path h read ex =
      let (d', read', (c, compat, same)) = load_iff file profile env f h in
      let merges = (merged_iff (base_filter profile c) d' env method path).2 in
      let same_d : d ≡ d' = cc in
      rw same (
        (check_err_iff _ method path _).1 (
          excluded
            (merges.1 (elim ex [
              | inl in_file ↦ inl (
                  inr (
                    subst (λ (x : PolicyDocument). SetApplies x.exclude method path) same_d
                      in_file))
              | inr in_env ↦ inr in_env
            ]))
            refl))

  compat_read_only :
      (env : Env) (c : Option SecurityFilter) → compatibility_filter env read_only ≡ ok c → c ≡ none
  unfolding compatibility_filter is_default
  compat_read_only env c h = ground arith

  -- Where loading succeeds under the read-only profile, no POST, PUT, DELETE or PATCH is allowed on
  -- any path, whatever the file and the variables say.
  pub load_read_only :
      (file : Option Str) (env : Env) (f : SecurityFilter) (method path : Str)
      → load host file read_only env ≡ ok f
      → Member method all_writes
      → check f method path ≢ ok tt
  unfolding base_filter
  load_read_only file env f method path h m allowed =
      let (d, read, (c, compat, same)) = load_iff file read_only env f h in
      let is_none = compat_read_only env c compat in
      let merges = (merged_iff (for_profile read_only) d env method path).1 in
      let denied = merges.1 (inl (inl (read_only_denies method path m))) in
      let base : f ≡ merged (for_profile read_only) d env =
        same ∙ ap (λ o. merged (base_filter read_only o) d env) is_none in
      ((check_iff f method path).0 allowed).1
        (subst (λ (g : SecurityFilter). RulesApply g.deny method path) (sym base) denied)
