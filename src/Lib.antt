-- ===== src/Lib.antt =====
-- kube-bmlb: load balancing on bare-metal Kubernetes nodes. A server (server/) watches services and
-- endpoints (watch/) and makes the kernel's IPVS table (lvs/) or a haproxy (haproxy/) match them;
-- utils/ holds the helpers.
--
-- - Prelude: shared names, tests, lists, maps as association lists, int32 in offset form, results.
-- - Text: what the program uses of Go's strings and strconv. A Go string is its bytes.
-- - Bits: utils/bits/bits.go. `Bits` is the struct, `new_bits`, `allocate`, `allocated` and
--   `revoke` its functions; `allocate_from` is the loop of Allocate, on fuel of one round for each
--   number and one to leave. `Race` is the same code with the load and the swap of each call as two
--   steps.
-- - Version: utils/version/version.go. `compare_internal` is compareInternal, `Parse.parse` is
--   parse.
-- - Kube, Net: the fields of Kubernetes objects that are read, and the operations of net.IP. Port
--   numbers are natural numbers.
-- - Lvs: lvs/lvs.go, `Lvs.Convert` and `Lvs.Runner` its runner over a handle of the vendored IPVS
--   library (a parameter); `Lvs.Interface` is its interface, `Lvs.Spec` what an implementation
--   promises, `Lvs.Fake` is lvs/testing/fake.go. Lists that the fake returns are copies here, while
--   the Go code returns its own slice.
-- - Adaptor: lvs/adaptor/adaptor.go. `Adaptor.Maps` makes the maps of Build, `Adaptor.Expect` is
--   getExpectRSs, `Adaptor.Sync` the part of Build that calls IPVS. `Adaptor.Texts` and
--   `Adaptor.Expected` are about the expected real servers, `Adaptor.Added` and `Adaptor.Reals`
--   about those of one virtual server, `Adaptor.Services`, `Adaptor.Loop` and `Adaptor.Created`
--   about the two loops; `Adaptor.Converge` puts them together. `Adaptor.Build` is Build as a
--   whole, `Adaptor.Frame` what it keeps, `Adaptor.Whole` what all of it does.
-- - Ipset: utils/ipset. `Ipset` has the types of types.go and ipset.go, `Ipset.Validate` the
--   checks, `Ipset.Entry` is Entry.String, `Ipset.Runner` the runner over an executor of command
--   lines (a parameter), `Ipset.Interface` its interface, `Ipset.Spec` what an implementation
--   promises, `Ipset.Fake` is utils/ipset/testing/fake.go.
-- - Iptables: utils/iptables. `Iptables.Runner` is the runner of iptables.go over an executor of
--   commands and the locks (parameters), `Iptables.Interface` its interface, `Iptables.Gates` the
--   version gates, `Iptables.Check` the check of a rule in a saved table, `Iptables.Signals` the
--   listener for firewalld over a D-Bus connection (a parameter), `Iptables.Save` is
--   save_restore.go; its loops run on one unit of fuel for each byte of the buffer. `Iptables.Spec`
--   has what the runner relies on of iptables and what the interface promises, `Iptables.Promise`,
--   `Iptables.Versions` and `Iptables.Printed` what follows for the code. `Iptables.Fake` is
--   utils/iptables/testing/fake_iptables.go, with `Iptables.Fake.Rules` for the rules, whose loop
--   over the arguments has one round of fuel for each byte and one more, and
--   `Iptables.Fake.Restore` for restore.
-- - Adaptor.Rules: lvs/adaptor/iptables.go, with `build_iptables` for buildIptables;
--   `Adaptor.Entries`, `Adaptor.PortTexts` and `Adaptor.Marked` are what its set holds.
-- - Sysctl: utils/sysctl/sysctl.go, over a file system (a parameter); Build calls it first.
-- - Watch: watch/, the event filters between the informers and the handlers, and the listings.
-- - Server: server/bmlb. `Server` has the handlers of handler.go and the sync channel,
--   `Server.Filter` is the filter of bmlb.go, `Server.Events` says which calls wake the loop,
--   `Server.Loop` is `syncing` as a step relation together with the informers, in which every
--   interleaving of their steps with those of the loop is a sequence; `Server.Wakeups` has its
--   invariant. The wait for the first synchronisation is left out: the loop may start at any time
--   there.
-- - Haproxy: haproxy/haproxy.go over the operating system (a parameter), `Haproxy.Template` is
--   template.go with the templates executed, `Haproxy.Adaptor` is haproxy/adaptor/adaptor.go.
-- - Examples: the theorems at concrete inputs.
--
-- Errors are only logged by Build, so that a call that fails is the state it leaves and a Boolean.
-- Texts of errors are values of a data type where the code makes them, and log messages are left
-- out. Not modelled are the start of the process and its flags, the status updates that follow a
-- round of the sync loop, the locks of iptables and the connection to D-Bus, which are calls of
-- the operating system or of vendored libraries.
pub mod Prelude
pub mod Text
pub mod Bits
pub mod Version
pub mod Kube
pub mod Watch
pub mod Server
pub mod Haproxy
pub mod Sysctl
pub mod Net
pub mod Lvs
pub mod Adaptor
pub mod Ipset
pub mod Iptables
pub mod Examples
