-- ===== src/Ipset/Entry.antt =====
-- utils/ipset/ipset.go, `Entry.String`.
use kube_bazellb.Prelude.{[], ◌∷◌, ◌++◌, Str, str_eq, if◌then◌else◌}
use kube_bazellb.Ipset.{
  IpSetEntry, hash_ip, hash_ip_port, hash_ip_port_ip, hash_ip_port_net, bitmap_port, hash_net,
  hash_net_port, itoa_int,
}

-- `fmt.Sprintf("%s,%s:%s", host, protocol, port)`
unfoldable pub with_port : Str → IpSetEntry → Str
unfolding itoa_int
with_port host e = host ++ b',' ∷ e.protocol ++ b':' ∷ itoa_int e.port

unfoldable pub entry_string : IpSetEntry → Str
unfolding with_port itoa_int
entry_string e =
    let t = e.set_type in
    if str_eq t hash_ip
    then e.ip
    else if str_eq t hash_ip_port
    then with_port e.ip e
    else if str_eq t hash_ip_port_ip
    then with_port e.ip e ++ b',' ∷ e.ip2
    else if str_eq t hash_ip_port_net
    then with_port e.ip e ++ b',' ∷ e.subnet
    else if str_eq t hash_net
    then e.subnet
    else if str_eq t hash_net_port
    then with_port e.subnet e
    else if str_eq t bitmap_port
    then itoa_int e.port
    else []
