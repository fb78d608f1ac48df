-- ===== src/Tests/Unit/Files.antt =====
-- The policy files under examples/, as the documents that they parse to.
use docker_socket_proxy.Common.{List, [], ◌∷◌, Option, none, some, Str, codes}
use docker_socket_proxy.Policy.Document.{EndpointSet, PolicyDocument, empty}

abbrev pub set : List Str → List Str → Option EndpointSet
set endpoints methods = some (record { endpoints = some endpoints; methods = some methods })

-- examples/container-runtime.toml
abbrev pub container_runtime_toml : PolicyDocument
container_runtime_toml = record {
  allow = set [] [];
  deny = set [] [];
  include =
      set (codes "/images/*/json" ∷ codes "/networks/*/json" ∷ codes "/volumes/*" ∷ [])
        (codes "GET" ∷ codes "HEAD" ∷ []);
  exclude = set (codes "/commit" ∷ codes "/swarm" ∷ codes "/secrets" ∷ []) [];
}

-- examples/create-inspection.toml
abbrev pub create_inspection_toml : PolicyDocument
create_inspection_toml = record empty {
  exclude = some (record {
    endpoints = some (codes "/build" ∷ codes "/commit" ∷ codes "/containers/*/archive" ∷ []);
    methods = none;
  });
}

-- examples/sections-read-only.yaml
abbrev pub sections_read_only_yaml : PolicyDocument
sections_read_only_yaml = record empty {
  include =
      set
        (codes "/containers"
          ∷ codes "/containers/"
          ∷ codes "/images"
          ∷ codes "/images/"
          ∷ codes "/networks"
          ∷ codes "/networks/"
          ∷ codes "/volumes"
          ∷ codes "/volumes/"
          ∷ [])
        (codes "GET" ∷ codes "HEAD" ∷ []);
  exclude = some (record {
    endpoints = some (codes "/containers/*/top" ∷ codes "/containers/*/changes" ∷ []);
    methods = none;
  });
}

-- examples/tecnativa-equivalent.toml
abbrev pub tecnativa_equivalent_toml : PolicyDocument
tecnativa_equivalent_toml = record empty {
  allow =
      set
        (codes "/containers"
          ∷ codes "/containers/"
          ∷ codes "/images"
          ∷ codes "/images/"
          ∷ codes "/events"
          ∷ codes "/events/"
          ∷ codes "/_ping"
          ∷ codes "/_ping/"
          ∷ codes "/version"
          ∷ codes "/version/"
          ∷ [])
        (codes "GET" ∷ codes "HEAD" ∷ codes "POST" ∷ codes "PUT" ∷ codes "DELETE" ∷ []);
}
