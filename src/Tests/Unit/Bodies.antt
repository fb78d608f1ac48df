-- ===== src/Tests/Unit/Bodies.antt =====
-- The bodies of the tests of src/security.rs and of tests/examples.rs, and a stand-in for serde_json that reads those.
use docker_socket_proxy.Common.{
  true, false, List, [], ◌∷◌, Option, none, some, Str, String, codes, str_eq, if◌then◌else◌,
}
use docker_socket_proxy.Security.Body.{Json}
use docker_socket_proxy.Tests.Unit.Values.{
  Value, Members, count, flag, text, several, fields, no_element, element, no_member, member,
  shape_of, look, names, look_iff,
}

abbrev quoted : String → Value
quoted s = text (codes s)

abbrev field : String → Value → Members → Members
field key v rest = member (codes key) v rest

abbrev host_config : Members → Members
host_config o = field "HostConfig" (fields o) no_member

abbrev worker : Members → Members
worker rest = field "Image" (quoted "worker") rest

abbrev pub granted_privileged : Str
granted_privileged = codes "{\"Image\":\"x\",\"HostConfig\":{\"Privileged\":true}}"

abbrev pub labelled : Str
labelled =
    codes
      "{\"Image\":\"worker:latest\",\"Cmd\":[\"dagster\",\"api\"],\"Labels\":{\"dagster/run_id\":\"run-1\",\"dagster/job_name\":\"job\"}}"

abbrev pub empty_image : Str
empty_image = codes "{\"Image\":\"\"}"

abbrev pub empty_object : Str
empty_object = codes "{}"

abbrev pub image_only : Str
image_only = codes "{\"Image\":\"worker\"}"

abbrev pub privileged : Str
privileged =
    codes
      "{\"Image\":\"worker\",\"Labels\":{\"dagster/run_id\":\"r\",\"dagster/job_name\":\"j\"},\"HostConfig\":{\"Privileged\":true}}"

abbrev pub pid_host : Str
pid_host = codes "{\"Image\":\"worker\",\"HostConfig\":{\"PidMode\":\"host\"}}"

abbrev pub cap_add : Str
cap_add = codes "{\"Image\":\"worker\",\"HostConfig\":{\"CapAdd\":[\"SYS_ADMIN\"]}}"

abbrev pub gpu : Str
gpu =
    codes
      "{\"Image\":\"worker\",\"HostConfig\":{\"DeviceRequests\":[{\"Driver\":\"nvidia\",\"Count\":1}]}}"

abbrev pub network_host : Str
network_host = codes "{\"Image\":\"worker\",\"NetworkMode\":\"host\"}"

abbrev pub privileged_false : Str
privileged_false =
    codes "{\"Image\":\"worker\",\"Privileged\":false,\"HostConfig\":{\"Privileged\":false}}"

abbrev pub cap_add_empty : Str
cap_add_empty = codes "{\"Image\":\"worker\",\"HostConfig\":{\"CapAdd\":[]}}"

abbrev pub mounted : Str
mounted =
    codes
      "{\"Image\":\"worker\",\"Mounts\":[{\"Type\":\"bind\",\"Source\":\"/opt/knime\",\"Target\":\"/opt/knime\"}]}"

abbrev pub empty_command : Str
empty_command = codes "{\"Image\":\"worker\",\"Cmd\":[]}"

abbrev pub run_command : Str
run_command = codes "{\"Image\":\"worker:1\",\"Cmd\":[\"run\"]}"

abbrev pub default_command : Str
default_command = codes "{\"Image\":\"worker:1\"}"

abbrev pub x_cap_add : Str
x_cap_add = codes "{\"Image\":\"x\",\"HostConfig\":{\"CapAdd\":[\"SYS_ADMIN\"]}}"

abbrev pub x_pid_host : Str
x_pid_host = codes "{\"Image\":\"x\",\"HostConfig\":{\"PidMode\":\"host\"}}"

abbrev pub x_gpu : Str
x_gpu =
    codes
      "{\"Image\":\"x\",\"HostConfig\":{\"DeviceRequests\":[{\"Driver\":\"nvidia\",\"Count\":1}]}}"

abbrev pub x_network_host : Str
x_network_host = codes "{\"Image\":\"x\",\"NetworkMode\":\"host\"}"

-- each text with the object that it spells
abbrev documents : List (Str × Members)
documents =
    (
      granted_privileged,
      field "Image" (quoted "x") (host_config (field "Privileged" (flag true) no_member)),
    )
    ∷ (
      labelled,
      field "Image" (quoted "worker:latest") (
          field "Cmd" (several (element (quoted "dagster") (element (quoted "api") no_element))) (
            field "Labels"
              (fields (
                field "dagster/run_id" (quoted "run-1")
                  (field "dagster/job_name" (quoted "job") no_member)))
              no_member)),
    )
    ∷ (empty_image, field "Image" (quoted "") no_member)
    ∷ (empty_object, no_member)
    ∷ (image_only, worker no_member)
    ∷ (
      privileged,
      worker (
          field "Labels"
            (fields (
              field "dagster/run_id" (quoted "r")
                (field "dagster/job_name" (quoted "j") no_member)))
            (host_config (field "Privileged" (flag true) no_member))),
    )
    ∷ (pid_host, worker (host_config (field "PidMode" (quoted "host") no_member)))
    ∷ (
      cap_add,
      worker (
          host_config
            (field "CapAdd" (several (element (quoted "SYS_ADMIN") no_element)) no_member)),
    )
    ∷ (
      gpu,
      worker (
          host_config (
            field "DeviceRequests"
              (several (
                element (fields (field "Driver" (quoted "nvidia") (field "Count" count no_member)))
                  no_element))
              no_member)),
    )
    ∷ (network_host, worker (field "NetworkMode" (quoted "host") no_member))
    ∷ (
      privileged_false,
      worker (
          field "Privileged" (flag false)
            (host_config (field "Privileged" (flag false) no_member))),
    )
    ∷ (cap_add_empty, worker (host_config (field "CapAdd" (several no_element) no_member)))
    ∷ (
      mounted,
      worker (
          field "Mounts"
            (several (
              element
                (fields (
                  field "Type" (quoted "bind") (
                    field "Source" (quoted "/opt/knime")
                      (field "Target" (quoted "/opt/knime") no_member))))
                no_element))
            no_member),
    )
    ∷ (empty_command, worker (field "Cmd" (several no_element) no_member))
    ∷ (
      run_command,
      field "Image" (quoted "worker:1")
          (field "Cmd" (several (element (quoted "run") no_element)) no_member),
    )
    ∷ (default_command, field "Image" (quoted "worker:1") no_member)
    ∷ (
      x_cap_add,
      field "Image" (quoted "x") (
          host_config
            (field "CapAdd" (several (element (quoted "SYS_ADMIN") no_element)) no_member)),
    )
    ∷ (
      x_pid_host,
      field "Image" (quoted "x") (host_config (field "PidMode" (quoted "host") no_member)),
    )
    ∷ (
      x_gpu,
      field "Image" (quoted "x") (
          host_config (
            field "DeviceRequests"
              (several (
                element (fields (field "Driver" (quoted "nvidia") (field "Count" count no_member)))
                  no_element))
              no_member)),
    )
    ∷ (x_network_host, field "Image" (quoted "x") (field "NetworkMode" (quoted "host") no_member))
    ∷ []

abbrev read_from : List (Str × Members) → Str → Option Value
read_from [] body = none
read_from ((spelled, o) ∷ rest) body =
    if str_eq spelled body then some (fields o) else read_from rest body

abbrev pub json : Json
json = record {
  Value = Value;
  Object = Members;
  from_slice = read_from documents;
  shape = shape_of;
  get = look;
  keys = names;
  keys_get = look_iff;
}
