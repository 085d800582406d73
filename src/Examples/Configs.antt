-- ===== src/Examples/Configs.antt =====
-- haproxy at small configurations, over two files in memory.
use kube_bazellb.Prelude.{
  Bool, true, not, [], ◌∷◌, ◌++◌, Str, codes, length, str_eq, string_eq, nat_eq, if◌then◌else◌, ◌≡◌,
  ◌⊎◌, refl, arith,
}
use kube_bazellb.Prelude.Assoc.{insert}
use kube_bazellb.Prelude.Members.{Distinct}
use kube_bazellb.Kube.{Service, Endpoints, tcp, load_balancer}
use kube_bazellb.Haproxy.{System, not_exist, Haproxy, run_conf}
use kube_bazellb.Haproxy.Template.{get_sample_template}
use kube_bazellb.Haproxy.Adaptor.{endpoints_servers, build}
use kube_bazellb.Haproxy.Sections.{names, numbered, endpoints_servers-Distinct}
use kube_bazellb.Haproxy.Apply.{Lawful, run_conf-run_conf, run_conf-accepted}

record Files : Type 0 where
  conf : Str
  tmp : Str

abbrev conf_path : Str
conf_path = codes "/etc/haproxy/haproxy.cfg"

abbrev balancer : Haproxy
balancer = record {
  conf_file = conf_path;
  pid_file = codes "/var/run/haproxy.pid";
  cmd_path = codes "haproxy";
  last_conf = [];
}

abbrev accepts : Str → Bool
accepts c = not (str_eq c (codes "bad"))

abbrev memory : System Files
memory = record {
  mkdir_all = λ path s. (s, true);
  write_file = λ path c s.
      (if str_eq path conf_path then record s { conf = c } else record s { tmp = c }, true);
  rename = λ from to s. (record s { conf = s.tmp }, true);
  read_file = λ path s. not_exist;
  combined_output = λ args s. (s, accepts s.tmp);
  start = λ args s. (s, true);
  wait = λ s. (s, true);
}

abbrev read : Files → Str → Str
read s path = if str_eq path conf_path then s.conf else s.tmp

memory-Lawful : Lawful memory balancer read accepts
unfolding str_eq
memory-Lawful = record {
  mkdir_law = λ path s. refl;
  write_other = λ c s. refl;
  write_done = λ c s e. refl;
  check_keeps = λ path s. refl;
  check_accepts = λ s e. e;
  rename_done = λ s e. refl;
  rename_failed = λ s e. ground (arith, e);
  start_law = λ args s. refl;
  wait_law = λ s. refl;
}

abbrev disk : Files
disk = record { conf = codes "old"; tmp = [] }

run_conf-run_conf_example :
    run_conf memory (codes "bad") (run_conf memory (codes "bad") (balancer, disk))
    ≡ run_conf memory (codes "bad") (balancer, disk)
run_conf-run_conf_example = run_conf-run_conf memory (codes "bad") balancer disk

run_conf-accepted_example :
    (let now = read (run_conf memory (codes "new") (balancer, disk)).1 conf_path in
      (now ≡ codes "old") ⊎ ((now ≡ codes "new") × (accepts (codes "new") ≡ true)))
unfolding str_eq
run_conf-accepted_example =
    run_conf-accepted memory balancer read accepts memory-Lawful (codes "new") disk

-- The good configuration is put in place, the bad one is not.
new_test : (run_conf memory (codes "new") (balancer, disk)).1.conf ≡ codes "new"
unfolding run_conf str_eq
new_test = refl

bad_test : (run_conf memory (codes "bad") (balancer, disk)).1.conf ≡ codes "old"
unfolding run_conf str_eq
bad_test = refl

abbrev pods : Str → Str → Endpoints
pods namespace ip = record {
  namespace = namespace;
  name = codes "w";
  subsets =
      record {
        addresses = ip ∷ codes "10.1.0.8" ∷ [];
        ports = record { name = []; port = 80 } ∷ [];
      }
      ∷ [];
}

endpoints_servers-Distinct_example :
    (names (endpoints_servers (codes "w") (pods (codes "a") (codes "10.1.0.7") ∷ []) [])
      ≡ numbered
          (codes "w")
          (length (endpoints_servers (codes "w") (pods (codes "a") (codes "10.1.0.7") ∷ []) [])))
    × Distinct (names (endpoints_servers (codes "w") (pods (codes "a") (codes "10.1.0.7") ∷ []) []))
endpoints_servers-Distinct_example =
    endpoints_servers-Distinct (codes "w") (pods (codes "a") (codes "10.1.0.7") ∷ [])

abbrev web : Str → Service
web namespace = record {
  namespace = namespace;
  name = codes "w";
  resource_version = [];
  service_type = load_balancer;
  ports = record { name = []; protocol = tcp; port = 8080 } ∷ [];
  ingress = [];
  rest = [];
}

-- Two services of one name in two namespaces get sections of one name, which haproxy refuses.
twins_test :
    build
      (web (codes "a") ∷ web (codes "b") ∷ [])
      (pods (codes "a") (codes "1.1.1.1") ∷ pods (codes "b") (codes "2.2.2.2") ∷ [])
    ≡ get_sample_template
      ++ codes "\nfrontend w\n\tbind\t0.0.0.0:8080\n"
      ++ codes "\n\tlog\tglobal\n\toption\thttplog\n\toption\tdontlognull\n\toption\tnolinger\n"
      ++ codes
          "\toption\thttp_proxy\n\tmaxconn\t8000\n\ttimeout\tclient\t30s\n\tdefault_backend\tw\n"
      ++ codes "\nbackend w\n\ttimeout\tconnect\t5s\n\ttimeout\tserver\t5s\n\tretries\t2\n"
      ++ codes
          "\tbalance\troundrobin\n\tserver\tw-0\t1.1.1.1:80\tcheck\n\tserver\tw-1\t10.1.0.8:80\tcheck\n"
      ++ codes "\nfrontend w\n\tbind\t0.0.0.0:8080\n"
      ++ codes "\n\tlog\tglobal\n\toption\thttplog\n\toption\tdontlognull\n\toption\tnolinger\n"
      ++ codes
          "\toption\thttp_proxy\n\tmaxconn\t8000\n\ttimeout\tclient\t30s\n\tdefault_backend\tw\n"
      ++ codes "\nbackend w\n\ttimeout\tconnect\t5s\n\ttimeout\tserver\t5s\n\tretries\t2\n"
      ++ codes
          "\tbalance\troundrobin\n\tserver\tw-0\t2.2.2.2:80\tcheck\n\tserver\tw-1\t10.1.0.8:80\tcheck\n"
unfolding build str_eq insert
twins_test = refl
