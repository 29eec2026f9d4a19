-- ===== src/Coordinator/Reserve/Pick.antt =====
-- pickHost: the host it takes, and that it leaves the others alone.
use lecrev.Prelude.{
  String, ◌≡◌, true, false, List, [], ◌∷◌, In, All, inl, inr, arith, select, List-cases, str_eq,
  some, if◌then◌else◌, Bool, ◌&&◌, ap, ◌∙◌, sym, subst, ◌↔◌, All-In, select-All, All-select,
  select-none, none-select,
}
use lecrev.Sorting.{
  IsStrictOrder, IsSorted, sort_stable-All, sort_stable-IsSorted, All-sort_stable, sort_stable,
}
use lecrev.Prelude.Int.{ℤ, ltb_ℤ}
use lecrev.Maps.{Assoc, get, put, get-put}
use lecrev.Errors.{ok, err, no_active_hosts}
use lecrev.Domain.{Time, Assignment, Host, WarmPool, NetworkPolicy, StartMode}
use lecrev.Store.Backend.{Backend}
use lecrev.Coordinator.Service.{Session, Coordinator}
use lecrev.Coordinator.Capacity.{classify_start_mode, warm_pools_for_host}
use lecrev.Coordinator.Node.{Node, persist_region, mirror_quietly}
use lecrev.Coordinator.Reserve.{can_take, reserve, pick_host, host_candidates, score}

module _ {S : Type 0} (db : Backend S) where
  -- The writes to the store always end well, and leave the sessions alone.
  mirror_quietly-self :
      (host : Host) (pools : List WarmPool) (now : Time) (n : Node S)
      → ((mirror_quietly db host pools now n).0 ≡ ok tt)
        × ((mirror_quietly db host pools now n).1.self ≡ n.self)
  unfolding mirror_quietly persist_region
  mirror_quietly-self host pools now n = ground arith

  -- The sessions after a pick, by the sorted candidates.
  pick-first :
      (a : Assignment) (now : Time) (n : Node S) {id : String} {mode : StartMode} {n' : Node S}
      → pick_host db a now n ≡ (ok (id, mode), n')
      → (session : Session) × (rest : List (String × Session)) × (host_candidates
            (score a.function_version_id)
            a.network_policy
            n.self.hosts
          ≡ (id, session) ∷ rest)
        × (mode ≡ classify_start_mode session.host a.function_version_id)
        × (n'.self ≡ record n.self {
          hosts = put n.self.hosts id (record session {
            host = reserve a.network_policy mode a.function_version_id session.host;
          });
        })
  unfolding pick_host
  pick-first a now n e =
      elim (List-cases
        (host_candidates (score a.function_version_id) a.network_policy n.self.hosts)) [
          | inl h ↦ ground (arith, h)
          | inr ((k, session), rest, h) ↦
              let host =
                reserve a.network_policy (classify_start_mode session.host a.function_version_id)
                  a.function_version_id session.host in
              let kept = mirror_quietly-self host (warm_pools_for_host host now) now (record n {
                self = record n.self {
                  hosts = put n.self.hosts k (record session { host = host });
                };
              }) in
              (
                session,
                rest,
                ground (arith, h, kept),
                ground (arith, h, kept),
                ground (arith, h, kept),
              )
        ]

abbrev pub by_score : (Host → ℤ) → String × Session → String × Session → Bool
by_score rate x y = ltb_ℤ (rate y.1.host) (rate x.1.host)

by_score_order : (rate : Host → ℤ) → IsStrictOrder (by_score rate)
by_score_order rate = record {
  asym = λ a b h. ground arith;
  not_less_trans = λ a b c h k. ground arith;
}

-- No session of the list can take the execution and scores higher than the host.
abbrev pub NoBetter : (Host → ℤ) → NetworkPolicy → Host → List (String × Session) → Type 0
NoBetter rate policy host =
    All (λ e. (can_take policy e.1.host && ltb_ℤ (rate host) (rate e.1.host)) ≡ false)

module _ (rate : Host → ℤ) (policy : NetworkPolicy) (hosts : Assoc Session) where
  abbrev able : String × Session → Bool
  able e = can_take policy e.1.host

  irrefl : (e : String × Session) → by_score rate e e ≡ false
  irrefl e = ground (arith, (by_score_order rate).asym e e)

  -- The first of the candidates.
  candidates-head :
      (e : String × Session) (rest : List (String × Session))
      → host_candidates rate policy hosts ≡ e ∷ rest
      → In e hosts × (able e ≡ true) × NoBetter rate policy e.1.host hosts
  unfolding host_candidates
  candidates-head e rest h =
      let chosen = subst (All (λ a. In a hosts × (able a ≡ true))) h (
        sort_stable-All (by_score rate) (λ a. In a hosts × (able a ≡ true)) (select able hosts)
          (select-All (λ a. In a hosts) able hosts (All-In hosts))) in
      let sorted =
        subst (IsSorted (by_score rate)) h
          (sort_stable-IsSorted (by_score rate) (by_score_order rate) (select able hosts)) in
      let all =
        All-sort_stable (by_score rate) (λ y. by_score rate y e ≡ false) (select able hosts)
          (subst (All (λ y. by_score rate y e ≡ false)) (sym h) (irrefl e, sorted.0)) in
      (chosen.0.0, chosen.0.1, All-select able (λ y. by_score rate y e) hosts all)

  nothing_able : host_candidates rate policy hosts ≡ [] → All (λ e. able e ≡ false) hosts
  unfolding host_candidates
  nothing_able h = select-none able hosts (
      All-sort_stable (by_score rate) (λ y. true ≡ false) (select able hosts)
        (subst (All (λ y. true ≡ false)) (sym h) tt))

  no_candidates : All (λ e. able e ≡ false) hosts → host_candidates rate policy hosts ≡ []
  unfolding host_candidates sort_stable
  no_candidates all = ap (sort_stable (by_score rate)) (none-select able hosts all)

module _ {S : Type 0} (db : Backend S) where
  -- A pick takes a host that can run the execution and that no other such host outscores, reserves
  -- on it what the start mode asks for, and leaves the other sessions as they were.
  pub pick_host-best :
      (a : Assignment) (now : Time) (n : Node S) (other : String) {id : String} {mode : StartMode}
      {n' : Node S}
      → pick_host db a now n ≡ (ok (id, mode), n')
      → (session : Session) × In (id, session) n.self.hosts
        × (can_take a.network_policy session.host ≡ true)
        × NoBetter (score a.function_version_id) a.network_policy session.host n.self.hosts
        × (mode ≡ classify_start_mode session.host a.function_version_id)
        × (get n'.self.hosts other ≡ (
            if str_eq id other
            then some (record session {
              host = reserve a.network_policy mode a.function_version_id session.host;
            })
            else get n.self.hosts other))
  pick_host-best a now n other {id} {mode} {n'} e =
      let (session, rest, h, m, s) = pick-first db a now n e in
      let c =
        candidates-head (score a.function_version_id) a.network_policy n.self.hosts (id, session)
          rest h in
      let taken : Session = record session {
        host = reserve a.network_policy mode a.function_version_id session.host;
      } in
      (
        session,
        c.0,
        c.1,
        c.2,
        m,
        ap (λ (x : Coordinator). get x.hosts other) s ∙ get-put n.self.hosts id other taken,
      )

  -- A pick fails for want of a host, with everything as it was, exactly if no session can take the
  -- execution.
  pub pick_host-none :
      (a : Assignment) (now : Time) (n : Node S)
      → (pick_host db a now n ≡ (err (no_active_hosts n.self.region), n))
        ↔ All (λ e. can_take a.network_policy e.1.host ≡ false) n.self.hosts
  unfolding pick_host
  pick_host-none a now n =
      let rate = score a.function_version_id in
      let hosts = n.self.hosts in
      (
        λ e. elim (List-cases (host_candidates rate a.network_policy hosts)) [
          | inl h ↦ nothing_able rate a.network_policy hosts h
          | inr (c, cs, h) ↦ ground (arith, h)
        ],
        λ all. ground (arith, no_candidates rate a.network_policy hosts all),
      )
