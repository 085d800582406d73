-- ===== src/Lvs/Runner.antt =====
-- lvs/lvs.go, `runner`: the interface over a handle of the IPVS library.
use kube_bazellb.Prelude.{Bool, false, Option, none, some, List}
use kube_bazellb.Prelude.Result.{Result, ok, err}
use kube_bazellb.Net.{Net}
use kube_bazellb.Lvs.{VirtualServer, RealServer}
use kube_bazellb.Lvs.Convert.{
  IpvsService, IpvsDestination, Handle, ConvertError, to_backend_service, to_backend_destination,
  to_virtual_server, to_real_server, convert_all,
}
use kube_bazellb.Lvs.Interface.{Interface}

module _ {net : Net} {H : Type 0} (h : Handle net H) where
  -- A call with the translated service, or the translation's error.
  abbrev with_service :
      (IpvsService net → H → H × Bool) → Result ConvertError (IpvsService net) → H → H × Bool
  with_service call (ok svc) s = call svc s
  with_service call (err e) s = (s, false)

  abbrev with_destination :
      (IpvsService net → IpvsDestination net → H → H × Bool)
      → Result ConvertError (IpvsService net)
      → Result ConvertError (IpvsDestination net)
      → H
      → H × Bool
  with_destination call (ok svc) (ok dst) s = call svc dst s
  with_destination call (ok svc) (err e) s = (s, false)
  with_destination call (err e) dst s = (s, false)

  abbrev value {ℓ} : {E A : Type ℓ} → Result E A → Option A
  value (ok a) = some a
  value (err e) = none

  unfoldable pub add_virtual_server : VirtualServer net → H → H × Bool
  unfolding to_backend_service
  add_virtual_server vs = with_service h.new_service (to_backend_service (some vs))

  unfoldable pub update_virtual_server : VirtualServer net → H → H × Bool
  unfolding to_backend_service
  update_virtual_server vs = with_service h.update_service (to_backend_service (some vs))

  unfoldable pub delete_virtual_server : VirtualServer net → H → H × Bool
  unfolding to_backend_service
  delete_virtual_server vs = with_service h.del_service (to_backend_service (some vs))

  unfoldable pub get_virtual_server : VirtualServer net → H → Option (VirtualServer net)
  unfolding to_backend_service to_virtual_server
  get_virtual_server vs s = elim (to_backend_service (some vs)) [
    | err e ↦ none
    | ok svc ↦ elim (h.get_service svc s) [
      | none ↦ none
      | some found ↦ value (to_virtual_server found)
    ]
  ]

  unfoldable pub get_virtual_servers : H → Option (List (VirtualServer net))
  unfolding convert_all to_virtual_server
  get_virtual_servers s = elim (h.get_services s) [
    | none ↦ none
    | some services ↦ convert_all to_virtual_server services
  ]

  unfoldable pub add_real_server : VirtualServer net → RealServer net → H → H × Bool
  unfolding to_backend_service to_backend_destination
  add_real_server vs rs =
      with_destination h.new_destination (to_backend_service (some vs))
        (to_backend_destination (some rs))

  unfoldable pub delete_real_server : VirtualServer net → RealServer net → H → H × Bool
  unfolding to_backend_service to_backend_destination
  delete_real_server vs rs =
      with_destination h.del_destination (to_backend_service (some vs))
        (to_backend_destination (some rs))

  unfoldable pub get_real_servers : VirtualServer net → H → Option (List (RealServer net))
  unfolding to_backend_service convert_all to_real_server
  get_real_servers vs s = elim (to_backend_service (some vs)) [
    | err e ↦ none
    | ok svc ↦ elim (h.get_destinations svc s) [
      | none ↦ none
      | some destinations ↦ convert_all to_real_server destinations
    ]
  ]

  unfoldable pub runner : Interface net H
  runner = record {
    flush = h.flush;
    add_virtual_server = add_virtual_server;
    update_virtual_server = update_virtual_server;
    delete_virtual_server = delete_virtual_server;
    get_virtual_server = get_virtual_server;
    get_virtual_servers = get_virtual_servers;
    add_real_server = add_real_server;
    get_real_servers = get_real_servers;
    delete_real_server = delete_real_server;
  }
