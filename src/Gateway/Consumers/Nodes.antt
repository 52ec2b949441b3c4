-- ===== src/Gateway/Consumers/Nodes.antt =====
-- main-server.c: the nodes that the consumers read, and their sleep.
use mathlib.Core.Path.{subst}
use linux_programing.Common.{◌+◌, [], ◌≡◌, ◌≢◌, refl, ◌⊎◌, arith}
use linux_programing.Gateway.Consumers.{
  linked, sleeping, faulted, System, initial, Step, arrive, produce, broadcast, serve_data,
  serve_storage, spurious_data, spurious_storage, Reach, start, next,
}
use linux_programing.Gateway.Consumers.Moves.{
  produces, locks, counts, bit, IsAt, consumer-Moved, producer-IsAt, producer-locks, wake-locks,
  wake-IsAt, arrived-IsAt, moved, moved-not_linked,
}

pub record IsSystem (s : System) : Type 0 where
  pub list_lock :
      bit (s.shared.mutex) ≡ produces s.producer + locks s.data_mgr + locks s.storage_mgr
  pub count_lock : bit (s.shared.cnt_mutex) ≡ counts s.data_mgr + counts s.storage_mgr
  pub data_at : IsAt s.producer (s.shared.nodes) s.data_mgr
  pub storage_at : IsAt s.producer (s.shared.nodes) s.storage_mgr

initial-IsSystem : IsSystem initial
initial-IsSystem = record { list_lock = refl; count_lock = refl; data_at = tt; storage_at = tt }

Step-IsSystem : {s t : System} → Step s t → IsSystem s → IsSystem t
Step-IsSystem {s} (arrive node e free new) v = record {
  list_lock = ground (arith, v.list_lock, e, free);
  count_lock = v.count_lock;
  data_at =
      arrived-IsAt (s.shared.nodes) node s.data_mgr (moved (s.shared.nodes) s.data_mgr e v.data_at);
  storage_at =
      arrived-IsAt (s.shared.nodes) node s.storage_mgr
        (moved (s.shared.nodes) s.storage_mgr e v.storage_at);
}
Step-IsSystem {s} (produce {p} {sh} e) v =
    let m =
      producer-locks s.producer p (s.shared) sh (locks s.data_mgr + locks s.storage_mgr) e
        (omega (arith, v.list_lock)) in
    let ne = moved-not_linked s.producer p (s.shared) sh e in
    record {
      list_lock = omega (arith, m);
      count_lock = ground (arith, m, v.count_lock);
      data_at = producer-IsAt s.producer p (s.shared) sh s.data_mgr e ne v.data_at;
      storage_at = producer-IsAt s.producer p (s.shared) sh s.storage_mgr e ne v.storage_at;
    }
Step-IsSystem {s} (broadcast e) v = record {
  list_lock = ground (arith, v.list_lock, e, wake-locks s.data_mgr, wake-locks s.storage_mgr);
  count_lock = ground (arith, v.count_lock, wake-locks s.data_mgr, wake-locks s.storage_mgr);
  data_at = wake-IsAt (s.shared.nodes) s.data_mgr (moved (s.shared.nodes) s.data_mgr e v.data_at);
  storage_at =
      wake-IsAt (s.shared.nodes) s.storage_mgr
        (moved (s.shared.nodes) s.storage_mgr e v.storage_at);
}
Step-IsSystem {s} (serve_data {c} {sh} same e) v =
    let m =
      consumer-Moved s.producer s.storage_mgr s.data_mgr c same (s.shared) sh
        (record {
          list_lock = v.list_lock;
          count_lock = v.count_lock;
          at = v.data_at;
          other_at = v.storage_at;
        })
        e in
    record {
      list_lock = m.list_lock;
      count_lock = m.count_lock;
      data_at = m.at;
      storage_at = m.other_at;
    }
Step-IsSystem {s} (serve_storage {c} {sh} same e) v =
    let m =
      consumer-Moved s.producer s.data_mgr s.storage_mgr c same (s.shared) sh
        (record {
          list_lock = omega (arith, v.list_lock);
          count_lock = omega (arith, v.count_lock);
          at = v.storage_at;
          other_at = v.data_at;
        })
        e in
    record {
      list_lock = omega (arith, m.list_lock);
      count_lock = omega (arith, m.count_lock);
      data_at = m.other_at;
      storage_at = m.at;
    }
Step-IsSystem {s} (spurious_data e) v = record {
  list_lock = ground (arith, v.list_lock, e);
  count_lock = ground (arith, v.count_lock, e);
  data_at = tt;
  storage_at = v.storage_at;
}
Step-IsSystem {s} (spurious_storage e) v = record {
  list_lock = ground (arith, v.list_lock, e);
  count_lock = ground (arith, v.count_lock, e);
  data_at = v.data_at;
  storage_at = tt;
}

pub Reach-IsSystem : {s : System} → Reach s → IsSystem s
Reach-IsSystem start = initial-IsSystem
Reach-IsSystem (next r m) = Step-IsSystem m (Reach-IsSystem r)

-- In every state that the three threads reach, neither consumer has read the text of a node that is
-- not in the list: a node that one of them takes from the list and then reads without the mutex of
-- the list is removed by neither in between.
pub never_faulted : {s : System} → Reach s → (s.data_mgr ≢ faulted) × (s.storage_mgr ≢ faulted)
never_faulted {s} r =
    let v = Reach-IsSystem r in
    (
      (λ e. subst (λ c. IsAt s.producer (s.shared.nodes) c) e v.data_at),
      (λ e. subst (λ c. IsAt s.producer (s.shared.nodes) c) e v.storage_at),
    )

-- In every state that the three threads reach, a consumer that sleeps does so while the list is
-- empty, or the producer is about to wake it.
pub sleeping_over_empty :
    {s : System}
    → Reach s
    → (s.data_mgr ≡ sleeping → (s.shared.nodes ≡ []) ⊎ (s.producer ≡ linked))
      × (s.storage_mgr ≡ sleeping → (s.shared.nodes ≡ []) ⊎ (s.producer ≡ linked))
sleeping_over_empty {s} r =
    let v = Reach-IsSystem r in
    (
      (λ e. subst (λ c. IsAt s.producer (s.shared.nodes) c) e v.data_at),
      (λ e. subst (λ c. IsAt s.producer (s.shared.nodes) c) e v.storage_at),
    )
