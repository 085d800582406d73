-- ===== src/Haproxy/Template.antt =====
-- haproxy/template.go: the templates, and what `text/template` makes of them.
use kube_bazellb.Prelude.{ℕ, List, [], ◌∷◌, ◌++◌, Str, codes, str_eq, if◌then◌else◌}
use kube_bazellb.Text.{itoa}

pub record Bind : Type 0 where
  pub ip : Str
  pub port : ℕ

pub record Frontend : Type 0 where
  pub name : Str
  pub binds : List Bind
  pub mode : Str
  pub default_backend : Str

pub record Server : Type 0 where
  pub name : Str
  pub ip : Str
  pub port : ℕ

pub record Backend : Type 0 where
  pub name : Str
  pub servers : List Server
  pub mode : Str

unfoldable pub get_sample_template : Str
get_sample_template =
    codes "# haproxy sample from kube-bmlb\n"
    ++ codes "global\n"
    ++ codes "\tmaxconn\t20000\n"
    ++ codes "\tulimit-n\t16384\n"
    ++ codes "\tlog\t127.0.0.1\tlocal0\n"
    ++ codes "\tuid\t200\n"
    ++ codes "\tgid\t200\n"
    ++ codes "\tchroot\t/var/empty\n"
    ++ codes "\tnbproc\t4\n"
    ++ codes "\tdaemon\n"
    ++ codes "\n"
    ++ codes "listen stats\n"
    ++ codes "\tbind\t:8081\n"
    ++ codes "\tmode\thttp\n"
    ++ codes "\tstats\tenable\n"
    ++ codes "\tstats\thide-version\n"
    ++ codes "\tstats\trealm Haproxy\\ Statistics  # Title text for popup window\n"
    ++ codes "\tstats\turi /\n"
    ++ codes "\tstats\tauth\tadmin:admin\n"

-- `{{range .Binds}}`
unfoldable pub binds_text : List Bind → Str
unfolding itoa
binds_text [] = []
binds_text (b ∷ binds) = codes "\n\tbind\t" ++ b.ip ++ codes ":" ++ itoa b.port ++ binds_text binds

-- `GetFrontendTemplate`, executed.
unfoldable pub frontend_text : Frontend → Str
unfolding binds_text str_eq
frontend_text f =
    codes "\nfrontend "
    ++ f.name
    ++ binds_text f.binds
    ++ codes "\n"
    ++ (if str_eq f.mode [] then [] else codes "\tMode\t" ++ f.mode)
    ++ codes "\n\tlog\tglobal\n\toption\thttplog\n\toption\tdontlognull\n\toption\tnolinger\n"
    ++ codes "\toption\thttp_proxy\n\tmaxconn\t8000\n\ttimeout\tclient\t30s\n"
    ++ codes "\tdefault_backend\t"
    ++ f.default_backend
    ++ codes "\n"

-- `{{range .Servers}}`
unfoldable pub servers_text : List Server → Str
unfolding itoa
servers_text [] = []
servers_text (s ∷ servers) =
    codes "\n\tserver\t"
    ++ s.name
    ++ codes "\t"
    ++ s.ip
    ++ codes ":"
    ++ itoa s.port
    ++ codes "\tcheck"
    ++ servers_text servers

-- `GetBackendTemplate`, executed.
unfoldable pub backend_text : Backend → Str
unfolding servers_text str_eq
backend_text b =
    codes "\nbackend "
    ++ b.name
    ++ (if str_eq b.mode [] then [] else codes "\n\tmode\t" ++ b.mode)
    ++ codes "\n\ttimeout\tconnect\t5s\n\ttimeout\tserver\t5s\n\tretries\t2\n\tbalance\troundrobin"
    ++ servers_text b.servers
    ++ codes "\n"
