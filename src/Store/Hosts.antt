-- ===== src/Store/Hosts.antt =====
-- internal/store/memory/store.go: hosts, warm pools and regions.
pub mod Pools
use Prim.Native.String.{◌++◌}
use text.Mathlib.Text.{starts_with}
use lecrev.Prelude.{String, Bool, List, [], ◌∷◌, select, str_eq, if◌then◌else◌}
use lecrev.Prelude.Text.{str_ltb}
use lecrev.Maps.{Assoc, get, put, values}
use lecrev.Sorting.{sort_stable}
use lecrev.Errors.{Exec, ok}
use lecrev.Domain.{Host, WarmPool, Region}
use lecrev.Store.State.{Store, found}

unfoldable pub put_host : Host → Exec Store (Unit {0})
put_host h s = (ok tt, record s { hosts = put s.hosts h.id h })

unfoldable pub update_host : Host → Exec Store (Unit {0})
update_host h s = (ok tt, record s { hosts = put s.hosts h.id h })

unfoldable pub get_host : String → Exec Store Host
get_host id s = (found "host" id (get s.hosts id), s)

unfoldable pub list_hosts_by_region : String → Exec Store (List Host)
list_hosts_by_region region s = (ok (select (λ h. str_eq h.region region) (values s.hosts)), s)

-- func warmPoolKey.
unfoldable pub warm_pool_key : String → String → String → String
warm_pool_key region host_id function_version_id =
    region ++ (":" ++ (host_id ++ (":" ++ function_version_id)))

unfoldable pub remove_prefixed : String → Assoc WarmPool → Assoc WarmPool
remove_prefixed prefix [] = []
remove_prefixed prefix ((key, pool) ∷ m) =
    let rest = remove_prefixed prefix m in
    if starts_with key prefix then rest else (key, pool) ∷ rest

unfoldable pub put_pools : List WarmPool → Assoc WarmPool → Assoc WarmPool
unfolding warm_pool_key
put_pools [] m = m
put_pools (p ∷ pools) m =
    put_pools pools (put m (warm_pool_key p.region p.host_id p.function_version_id) p)

unfoldable pub replace_warm_pools_for_host : String → String → List WarmPool → Exec Store (Unit {0})
unfolding warm_pool_key
replace_warm_pools_for_host region host_id pools s =
    let kept = remove_prefixed (warm_pool_key region host_id "") s.warm_pools in
    (ok tt, record s { warm_pools = put_pools pools kept })

abbrev pub pool_before : WarmPool → WarmPool → Bool
pool_before p q =
    if str_eq p.host_id q.host_id
    then str_ltb p.function_version_id q.function_version_id
    else str_ltb p.host_id q.host_id

unfoldable pub list_warm_pools_by_region : String → Exec Store (List WarmPool)
list_warm_pools_by_region region s =
    (ok (sort_stable pool_before (select (λ p. str_eq p.region region) (values s.warm_pools))), s)

unfoldable pub put_region : Region → Exec Store (Unit {0})
put_region r s = (ok tt, record s { regions = put s.regions r.name r })

unfoldable pub get_region : String → Exec Store Region
get_region name s = (found "region" name (get s.regions name), s)

unfoldable pub list_regions : Exec Store (List Region)
list_regions s = (ok (values s.regions), s)
