-- ===== src/Examples/Whole.antt =====
-- lvs/adaptor/adaptor.go, `Build` as a whole, over the in-memory IPVS beside the in-memory ipset.
use kube_bazellb.Prelude.{false, none, nat_eq, string_eq}
use kube_bazellb.Lvs.Interface.{Interface}
use kube_bazellb.Lvs.Spec.{Lawful}
use kube_bazellb.Lvs.Fake.{Fake, fake}
use kube_bazellb.Ipset.Interface.{Interface as Sets}
use kube_bazellb.Ipset.Spec.{Lawful as SetsLawful}
use kube_bazellb.Ipset.Fake.{State, fake as fake_sets}
use kube_bazellb.Sysctl.{Disk}
use kube_bazellb.Examples.Parts.{lvs_first, sets_second}
use kube_bazellb.Examples.Servers.{texts}

abbrev Both : Type 0
Both = Fake texts × State

abbrev lvs : Interface texts Both
lvs = lvs_first fake

abbrev sets : Sets Both
sets = sets_second fake_sets

-- A disk without settings.
abbrev no_settings : Disk Both
no_settings = record { read_file = λ path s. none; write_file = λ path text s. (s, false) }
