-- ===== src/Store/Hosts/Pools.antt =====
-- ReplaceWarmPoolsForHost: what the table of warm pools holds afterwards.
use Prim.Native.String.{◌++◌}
use Prim.Native.String.append
use text.Mathlib.TextLemmas.{append_assoc}
use text.Mathlib.Text.{starts_with}
use text.Mathlib.TextPositions.{starts_with-append}
use lecrev.Prelude.{
  String, ◌≡◌, refl, ap, ◌∙◌, Option, none, some, List, [], ◌∷◌, arith, eq_iff, str_eq,
  if◌then◌else◌,
}
use lecrev.Maps.{Assoc, get, put, get-put}
use lecrev.Maps.Keyed.{IsKeyed, put-IsKeyed}
use lecrev.Domain.{WarmPool}
use lecrev.Store.State.{Store}
use lecrev.Store.Hosts.{warm_pool_key, remove_prefixed, put_pools, replace_warm_pools_for_host}

abbrev pub pool_key : WarmPool → String
pool_key p = warm_pool_key p.region p.host_id p.function_version_id

-- The last of the given pools under a key, or what was there.
abbrev pub last_pool : List WarmPool → String → Option WarmPool → Option WarmPool
last_pool [] k old = old
last_pool (p ∷ pools) k old = last_pool pools k (if str_eq (pool_key p) k then some p else old)

get-remove_prefixed :
    (prefix : String) (m : Assoc WarmPool) (k : String)
    → get (remove_prefixed prefix m) k ≡ (if starts_with k prefix then none else get m k)
unfolding get remove_prefixed
get-remove_prefixed prefix [] k = ground arith
get-remove_prefixed prefix ((j, p) ∷ m) k =
    ground (arith, eq_iff j k, get-remove_prefixed prefix m k)

get-put_pools :
    (pools : List WarmPool) (m : Assoc WarmPool) (k : String)
    → get (put_pools pools m) k ≡ last_pool pools k (get m k)
unfolding put_pools
get-put_pools [] m k = refl
get-put_pools (p ∷ pools) m k =
    get-put_pools pools (put m (pool_key p) p) k
    ∙ ap (last_pool pools k) (get-put m (pool_key p) k p)

-- After the pools of a host are replaced, a key holds the last of the given pools under it;
-- without one it is gone if it begins with the key of the host, and unchanged otherwise.
replace_warm_pools-get :
    (region host_id : String) (pools : List WarmPool) (s : Store) (k : String)
    → get (replace_warm_pools_for_host region host_id pools s).1.warm_pools k
      ≡ last_pool pools k
          (if starts_with k (warm_pool_key region host_id "") then none else get s.warm_pools k)
unfolding replace_warm_pools_for_host
replace_warm_pools-get region host_id pools s k =
    get-put_pools pools _ k ∙ ap (last_pool pools k) (get-remove_prefixed _ s.warm_pools k)

pub remove_prefixed-IsKeyed :
    (prefix : String) (m : Assoc WarmPool)
    → IsKeyed pool_key m
    → IsKeyed pool_key (remove_prefixed prefix m)
unfolding remove_prefixed
remove_prefixed-IsKeyed prefix [] h = tt
remove_prefixed-IsKeyed prefix ((j, p) ∷ m) h =
    ground (arith, get-remove_prefixed prefix m j, remove_prefixed-IsKeyed prefix m h.2)

pub put_pools-IsKeyed :
    (pools : List WarmPool) (m : Assoc WarmPool)
    → IsKeyed pool_key m
    → IsKeyed pool_key (put_pools pools m)
unfolding put_pools
put_pools-IsKeyed [] m h = h
put_pools-IsKeyed (p ∷ pools) m h =
    put_pools-IsKeyed pools (put m (pool_key p) p) (put-IsKeyed pool_key m p h)

longer_host_key :
    (region host x f : String)
    → warm_pool_key region (host ++ (":" ++ x)) f
      ≡ warm_pool_key region host "" ++ (x ++ (":" ++ f))
unfolding warm_pool_key
longer_host_key region host x f = simp (append_assoc, append.nil)

-- A host whose id extends another's by a colon and more loses its pools with the other's: after
-- the pools of `host` were replaced by none, no pool of the host `host:x` is left.
replace_warm_pools_collide :
    (region host x f : String) (s : Store)
    → get
        (replace_warm_pools_for_host region host [] s).1.warm_pools
        (warm_pool_key region (host ++ (":" ++ x)) f)
      ≡ none
replace_warm_pools_collide region host x f s =
    let key = warm_pool_key region host "" in
    let k = warm_pool_key region (host ++ (":" ++ x)) f in
    replace_warm_pools-get region host [] s k
    ∙ ap (λ b. if b then none else get s.warm_pools k)
        (ap (λ t. starts_with t key) (longer_host_key region host x f)
          ∙ starts_with-append key (x ++ (":" ++ f)))
