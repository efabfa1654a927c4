-- ===== src/Lib.antt =====
-- platform-service-gitops: verification library.
--
-- The program is a Kubernetes operator. A GitHubInstance names credential Secrets of a GitHub App,
-- an AppInstallation finds out whether the App is installed for an organisation or user, a
-- GitRepository uses that installation and has a token Secret and a Flux GitRepository written
-- into every control plane (MCP) that it names, and a Kustomization mirrors a Flux one.
--
-- Files, with the code that they are about:
--   Go         what the code uses of Go: errors, int64, time, maps, strings, and `Eff`, a call that
--              takes the world outside the process before it and gives the one after it
--   K8s        metadata, conditions, the client of one kind of object, objects of other projects;
--              Laws states what is relied on of an API server, Memory is a server that obeys, Rbac
--              is a client with some permissions only
--   Api        api/core/v1alpha1 and api/github/v1alpha1
--   DeepCopy   api/core/v1alpha1 and api/github/v1alpha1, zz_generated.deepcopy.go, over the memory of
--              the process: Memory has the cells, Copier what a deep copy promises, Shapes the
--              forms of the generated code, Core and Github the types, Objects the interface
--   GithubApp  internal/githubapp/client.go
--   Credentials  internal/credentials/resolve.go
--   Propagate  internal/propagate/propagate.go
--   McpAccess  internal/mcpaccess/resolver.go: Names expands the targets, Access gets the clients
--   Controller   internal/controllerconst/const.go and what the controllers share
--   Controller.GitRepository  internal/controller/core/gitrepository_controller.go: Base has the
--              struct and setCondition, Status propagateKey, setPropagateStatus and
--              filterPropagateStatus, Credential resolveCredential, Target reconcileTarget,
--              Propagation reconcilePropagate, Deletion reconcileDelete, Reconcile the rest;
--              Sequence has passes in sequence, with steps of others between them, and
--              Sequence.Program those with the resolver of the program
--   Controller.Kustomization  internal/controller/core/kustomization_controller.go
--   Controller.AppInstallation, Controller.GithubInstance  internal/controller/github
--   Controller.Setup  the constructors and SetupWithManager of the controllers
--   Scheme     internal/scheme/scheme.go and the group versions of api/
--   Main       cmd/platform-service-gitops/main.go: Flags, Access with the permissions, Libraries
--              with what is called, Init and Run the commands, Startup and Command the log of a
--              start, Permissions what the permissions deny, Process main itself
--   Tests      runs on a world in memory
-- The modules below these hold the theorems about them.
--
-- A function of the source with an error result is an action with a `Result`; `try` is the check
-- `if err != nil`. A function that changes an object through a pointer returns the changed object.
-- The world is a type variable: every call may change it and may fail in any way, except where a
-- theorem takes laws for the clients. Goroutines and concurrent writers show as such changes.
-- Loops are structural recursion over the lists that the source ranges over, so there is no fuel.
-- Integers are mathematical, with the wrap-around and saturation of int64 written out where the
-- code subtracts durations; a Time is a number of nanoseconds since the zero time.
--
-- The setup of the program is modelled as calls on the libraries in order; how a manager turns the
-- registrations into calls of the controllers is not, and any order of passes is allowed.
--
-- Not modelled: logging, since nothing reads it; the registration of Go types with their groups; the
-- tests. The libraries (controller-runtime, apimachinery, go-github, ghinstallation, the openmcp
-- libraries, client-go, cobra, pflag) are arguments.
pub mod Prelude
pub mod Go
pub mod K8s
pub mod Api
pub mod DeepCopy
pub mod GithubApp
pub mod Credentials
pub mod Propagate
pub mod McpAccess
pub mod Controller
pub mod Scheme
pub mod Main
pub mod Tests
