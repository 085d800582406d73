-- ===== src/Examples/Servers.antt =====
-- lvs/ at small tables. The addresses of these examples are their texts.
use kube_bazellb.Prelude.{true, false, some, [], ◌∷◌, Str, codes, str_eq, ◌≡◌, refl, string_eq, inl}
use kube_bazellb.Prelude.Result.{ok}
use kube_bazellb.Net.{Net}
use kube_bazellb.Lvs.{VirtualServer, join_host_port}
use kube_bazellb.Lvs.Convert.{IpvsService, Handle, to_backend_service}
use kube_bazellb.Lvs.Runner.{get_virtual_servers}
use kube_bazellb.Lvs.RoundTrip.{
  IsPlain, sent, to_virtual_server-backend, get_virtual_servers-Listed, kept,
}
use kube_bazellb.Lvs.Spec.{Complete}
use kube_bazellb.Lvs.Fake.{
  panicked, fake, new_fake, flush, add_virtual_server,
  get_virtual_servers as get_virtual_servers_fake,
}
use kube_bazellb.Lvs.Fake.Laws.{table}
use kube_bazellb.Lvs.Fake.Promise.{fake-Complete, new_fake-IsValid}

abbrev pub texts : Net
texts = record {
  IP = Str;
  eq = string_eq;
  nil = [];
  v4_zero = codes "0.0.0.0";
  v6_zero = codes "::";
  to4 = λ a. true;
  parse = λ s. s;
  show = λ a. a;
  show_injective = λ a b e. e;
}

abbrev pub web : VirtualServer texts
web = record {
  address = codes "10.0.0.2";
  protocol = codes "TCP";
  port = 80;
  scheduler = codes "rr";
  flags = 0;
  timeout = 0;
}

web-IsPlain : IsPlain web
web-IsPlain = record { protocol = inl refl; address = λ e. cc; flags = refl }

to_virtual_server-backend_example : sent web ≡ ok web
to_virtual_server-backend_example = to_virtual_server-backend web web-IsPlain

abbrev web_service : IpvsService texts
web_service = record {
  address = codes "10.0.0.2";
  protocol = 6;
  port = 80;
  sched_name = codes "rr";
  flags = 0;
  timeout = 0;
  netmask = 0xffffffff;
  address_family = 2;
}

-- A kernel that holds one service and takes no change.
abbrev kernel : Handle texts Unit
kernel = record {
  new_service = λ s h. (h, false);
  update_service = λ s h. (h, false);
  del_service = λ s h. (h, false);
  get_service = λ s h. some (some (kept web_service));
  get_services = λ h. some (some (kept web_service) ∷ []);
  flush = λ h. (h, false);
  new_destination = λ s d h. (h, false);
  del_destination = λ s d h. (h, false);
  get_destinations = λ s h. some [];
}

web_sent : to_backend_service (some web) ≡ ok web_service
unfolding to_backend_service str_eq
web_sent = refl

get_virtual_servers-Listed_example : get_virtual_servers kernel tt ≡ some (web ∷ [])
get_virtual_servers-Listed_example =
    get_virtual_servers-Listed kernel tt (web ∷ []) (some (kept web_service) ∷ []) refl
      ((web-IsPlain, (web_service, web_sent, refl), tt))

fake-Complete_example :
    Complete (fake {net = texts}) table
    × (get_virtual_servers_fake (flush (new_fake {net = texts})).0 ≡ some [])
    × ((add_virtual_server web (flush new_fake).0).0 ≡ panicked)
fake-Complete_example = fake-Complete web new_fake (new_fake-IsValid texts)

join_host_port-injective_test : join_host_port (codes "::1") (codes "80") ≡ codes "[::1]:80"
unfolding join_host_port
join_host_port-injective_test = refl
