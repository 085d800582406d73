-- ===== src/Examples/Loops.antt =====
-- server/bmlb at one service.
use kube_bazellb.Prelude.{
  true, some, [], ◌∷◌, Str, codes, nat_eq, if◌then◌else◌, map, ◌≡◌, ◌≢◌, ◌↔◌, refl, arith,
}
use kube_bazellb.Kube.{Service, load_balancer, cluster_ip}
use kube_bazellb.Watch.{service, is_load_balancer}
use kube_bazellb.Server.{
  Server, skip_service_update, Event, service_added, service_updated, dispatch,
}
use kube_bazellb.Server.Filter.{
  filter, select, ensured, with_lb_ip, lacks_ip, filter_lem, filter_again,
}
use kube_bazellb.Server.Events.{with_status_of, skip_service_update_lem, retype_unnoticed}
use kube_bazellb.Server.Loop.{
  World, new_world, made, waiting, woken, halfway, building, called, set_chan, Move, makes, sends,
  takes, lists, changes, calls, moves, Star, here, next, Reach,
}
use kube_bazellb.Server.Wakeups.{IsAwake, reachable-IsAwake, told-listed, called-IsBlocked}

abbrev shop : Service
shop = record {
  namespace = codes "a";
  name = codes "shop";
  resource_version = codes "7";
  service_type = load_balancer;
  ports = [];
  ingress = [];
  rest = [];
}

abbrev retyped : Service
retyped = record shop { service_type = cluster_ip }

abbrev address : Str
address = codes "10.0.0.1"

abbrev shop_server : Server
shop_server = record { bind = address; sync_chan = some 0 }

filter_lem_example :
    ((filter address (shop ∷ [])).filtered
      ≡ map (ensured address) (select is_load_balancer (shop ∷ [])))
    × ((filter address (shop ∷ [])).needs_update
        ≡ map
            (with_lb_ip address)
            (select (lacks_ip address) (select is_load_balancer (shop ∷ []))))
    × ((filter address (shop ∷ [])).cache
        ≡ map (λ svc. if is_load_balancer svc then ensured address svc else svc) (shop ∷ []))
filter_lem_example = filter_lem address (shop ∷ [])

filter_again_example :
    (filter address (filter address (shop ∷ retyped ∷ [])).cache).needs_update ≡ []
filter_again_example = filter_again address (shop ∷ retyped ∷ [])

skip_service_update_lem_example :
    (skip_service_update shop (with_lb_ip address shop) ≡ true)
    ↔ (with_lb_ip address shop ≡ with_status_of (with_lb_ip address shop) shop)
skip_service_update_lem_example = skip_service_update_lem shop (with_lb_ip address shop)

retype_unnoticed_example :
    (dispatch (service_updated (service shop) (service retyped)) shop_server ≡ shop_server)
    × ((filter address (retyped ∷ [])).filtered ≢ (filter address (shop ∷ [])).filtered)
retype_unnoticed_example = retype_unnoticed address shop retyped shop_server refl (ground arith)

abbrev add_shop : Event
add_shop = service_added (service shop)

-- The loop has listed the empty cache; the service comes, and its handler is called.
abbrev made_chan : World
made_chan = set_chan 0 made (new_world address)

abbrev first : World
first = set_chan 1 waiting made_chan

abbrev listed : World
listed = record (set_chan 0 woken first) { phase = halfway }

abbrev told : World
told = called add_shop (record listed { cached = 1 })

told-Reach : Reach (new_world address) told
told-Reach =
    next
      (next
        (next
          (next
            (next (next here (moves (makes (new_world address) refl)))
              (moves (sends made_chan 0 refl refl (omega arith))))
            (moves (takes first 0 refl refl)))
          (moves (lists (set_chan 0 woken first) refl)))
        (changes listed))
      (calls add_shop (record listed { cached = 1 }))

reachable-IsAwake_example : IsAwake told
reachable-IsAwake_example = reachable-IsAwake told-Reach

told-listed_example : (x : World) × Star Move told x × (x.phase ≡ building) × (x.listed ≡ 1)
unfolding called
told-listed_example = told-listed told-Reach (ground arith, ground arith) (omega arith)

abbrev filled : World
filled = called add_shop (called add_shop made_chan)

called-IsBlocked_example :
    (filled.phase ≡ made) × (filled.server.sync_chan ≡ some 2) × ((x : World) → Move filled x → ⊥)
called-IsBlocked_example =
    called-IsBlocked add_shop add_shop (new_world address) refl refl {w = filled} here
