-- ===== src/Docker.antt =====
-- pkg/docker/docker.go: containers for tests. The docker command, JSON and sleeps are parameters.
pub mod Laws
use Prim.Native.String.{[], ◌∷◌}
use jumble.Shared.{
  ℕ, zero, suc, ◌+◌, ◌*◌, code, String, Bool, true, false, ◌||◌, Option, none, some, List, [], ◌∷◌,
  ◌++◌, lookup, nat_eq, ◌==◌, if◌then◌else◌,
}
use jumble.Go.Action.{Call, returns, panics}
use jumble.Go.Error.{Error, Result, ok, err, plain, wrap}
use jumble.Go.Error
use jumble.Go.Text.{◌^^◌}

pub record Container : Type 0 where
  pub name : String
  pub host_port : String

-- An element of NetworkSettings.Ports.
pub record Binding : Type 0 where
  pub host_ip : String
  pub host_port : String

-- ContainerInfo, with its NetworkSettings
abbrev pub ContainerInfo : Type 0
ContainerInfo = List (String × List Binding)

-- exec.Command("docker", args...).Run() with its standard output, time.Sleep, and the decoder.
pub record Daemon (S : Type 0) : Type 0 where
  pub run : (args : List String) → S → (Option Error × String) × S
  pub sleep : (duration : ℕ) → S → S
  pub decode : String → Result (List ContainerInfo)

-- A function that may fail or panic.
abbrev pub Fallible : Type 0 → Type 0 → Type 0
Fallible S A = S → Call A × S

module _ {S A B : Type 0} where
  abbrev continue : Call A → (A → Fallible S B) → Fallible S B
  continue (returns (ok a)) f s = f a s
  continue (returns (err e)) f s = (returns (err e), s)
  continue (panics m) f s = (panics m, s)

  infixl 5 ◌>>=◌
  abbrev ◌>>=◌ : Fallible S A → (A → Fallible S B) → Fallible S B
  ◌>>=◌ m f s = continue (m s).0 f (m s).1

module _ {S A : Type 0} where
  abbrev lift : Call A → Fallible S A
  lift c s = (c, s)

abbrev output_of : String → Option Error × String → Call String
output_of prefix (none, out) = returns (ok out)
output_of prefix (some e, out) = returns (err (wrap prefix e))

abbrev has_colon : String → Bool
has_colon [] = false
has_colon (c ∷ s) = nat_eq (code c) b':' || has_colon s

-- net.JoinHostPort
unfoldable pub join_host_port : String → String → String
join_host_port host port =
    if has_colon host then "[" ^^ (host ^^ ("]:" ^^ port)) else host ^^ (":" ^^ port)

-- s[:n], in the ASCII of an id
unfoldable pub slice : ℕ → String → Option String
slice zero s = some []
slice (suc n) [] = none
slice (suc n) (c ∷ s) = elim (slice n s) [ none ↦ none | some t ↦ some (c ∷ t) ]

abbrev sliced : Option String → Call String
sliced none = panics "runtime error: slice bounds out of range"
sliced (some s) = returns (ok s)

-- The loop over the bindings of a port; hostPort is still "" when it is returned.
unfoldable pub pick : String → List Binding → Result (String × String)
pick container_id [] = err (plain ("host:port not found for container " ^^ container_id))
pick container_id (host ∷ ports) =
    let rest = pick container_id ports in
    if host.host_ip == "::"
    then rest
    else if host.host_ip == ""
    then ok ("localhost", "")
    else ok (host.host_ip, host.host_port)

abbrev bindings : Option (List Binding) → List Binding
bindings none = []
bindings (some ports) = ports

-- The decoded output. A decoder's error is not the one that is wrapped: `err` is nil there.
picked : String → String → Result (List ContainerInfo) → Call (String × String)
unfolding pick
picked container_id port (err e) = returns (err (plain "decoding containerInfos: %!w(<nil>)"))
picked container_id port (ok []) = panics "runtime error: index out of range [0] with length 0"
picked container_id port (ok (info ∷ infos)) =
    returns (pick container_id (bindings (lookup (port ^^ "/tcp") info)))

module _ {S : Type 0} (docker : Daemon S) where
  -- A command's output, or its error after a text.
  run_command : String → List String → Fallible S String
  run_command prefix args s = let (r, t) = docker.run args s in (output_of prefix r, t)

  unfoldable pub extract_ip_port : String → String → Fallible S (String × String)
  unfolding run_command picked
  extract_ip_port container_id port = do
    output ←
        run_command ("running docker inspect on container " ^^ container_id)
          ("inspect" ∷ container_id ∷ [])
    lift (picked container_id port (docker.decode output))

  abbrev found : String → String → Call (String × String) → Call Container
  found name port (returns (ok (ip, host_port))) =
      returns (ok (record { name = name; host_port = join_host_port ip host_port }))
  found name port (returns (err e)) =
      returns (err (plain ("container with name/id " ^^ (name ^^ " not found"))))
  found name port (panics m) = panics m

  unfoldable pub exists : String → String → Fallible S Container
  exists name port s = let (r, t) = extract_ip_port name port s in (found name port r, t)

  abbrev stop_error : String → String → Option Error → Option Error
  stop_error what container none = none
  stop_error what container (some e) =
      some (plain ("failed to " ^^ (what ^^ (" " ^^ (container ^^ (": " ^^ Error.text e))))))

  -- The second command of StopContainer, after the first one.
  removed : String → Option Error × S → Option Error × S
  removed container (some e, s) = (some e, s)
  removed container (none, s) =
      let (r, t) = docker.run ("rm" ∷ container ∷ "-v" ∷ []) s in
      (stop_error "remove volume" container r.0, t)

  unfoldable pub stop_container : String → S → Option Error × S
  unfolding removed
  stop_container container s =
      let (r, t) = docker.run ("stop" ∷ container ∷ []) s in
      removed container (stop_error "stop container" container r.0, t)

  abbrev run_args : String → String → List String → List String → List String
  run_args image name docker_args container_args =
      ("run" ∷ "-P" ∷ "-d" ∷ "--name" ∷ name ∷ [])
      ++ (docker_args ++ ((image ∷ []) ++ container_args))

  -- The new container's address; without one it is stopped.
  addressed : String → String → String → Fallible S Container
  unfolding extract_ip_port stop_container
  addressed name port id s =
      let (r, t) = extract_ip_port id port s in
      elim r [
        | panics m ↦ (panics m, t)
        | returns found_at ↦ elim found_at [
          | ok (ip, host_port) ↦
              (returns (ok (record { name = name; host_port = join_host_port ip host_port })), t)
          | err e ↦ (returns (err (wrap "extract IP port failed" e)), (stop_container id t).1)
        ]
      ]

  -- startContainer after the container was not found.
  created : String → String → String → List String → List String → Fallible S Container
  unfolding run_command addressed slice
  created image name port docker_args container_args s =
      let ignored = docker.run ("rm" ∷ name ∷ "-v" ∷ []) s in
      (do
        out ←
            run_command "running docker command failed"
              (run_args image name docker_args container_args)
        id ← lift (sliced (slice 12 out))
        addressed name port id)
        ignored.1

  -- startContainer
  unfoldable pub start_once :
      String → String → String → List String → List String → Fallible S Container
  unfolding created exists
  start_once image name port docker_args container_args s =
      let (r, t) = exists name port s in
      elim r [
        | returns found_at ↦ elim found_at [
          | ok c ↦ (returns (ok c), t)
          | err e ↦ created image name port docker_args container_args t
        ]
        | panics m ↦ (panics m, t)
      ]

  -- The loop of StartContainer from its index `i`, with so many rounds left, and the last attempt.
  retry : Fallible S Container → (rounds i : ℕ) → Fallible S Container
  retry attempt zero i s = attempt s
  retry attempt (suc rounds) i s =
      let (r, t) = attempt s in
      let rest = retry attempt rounds (suc i) (docker.sleep ((i + 1) * 100000000) t) in
      elim r [
        | panics m ↦ (panics m, t)
        | returns found_at ↦ elim found_at [ ok c ↦ (returns (ok c), t) | err e ↦ rest ]
      ]

  -- StartContainer
  unfoldable pub start_container :
      String → String → String → List String → List String → Fallible S Container
  unfolding retry start_once
  start_container image name port docker_args container_args =
      retry (start_once image name port docker_args container_args) 2 0

  -- DumpContainerLogs; `docker.run` gives both outputs for "logs"
  unfoldable pub dump_container_logs : String → S → String × S
  dump_container_logs container s =
      let ((e, out), t) = docker.run ("logs" ∷ container ∷ []) s in
      (elim e [ none ↦ out | some failed ↦ "" ], t)
