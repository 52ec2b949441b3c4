-- ===== src/Gateway/Consumers/Tests.antt =====
-- The consumers of main-server.c at concrete runs.
use linux_programing.Common.{◌≡◌, ◌≢◌, refl, ◌⊎◌, true, false, [], ◌∷◌}
use linux_programing.Gateway.Consumers.{
  idle, linked, top, holding, sleeping, faulted, producer_move, consumer_move, take_first, System,
  arrive, produce, broadcast, serve_storage, Reach, start, next,
}
use linux_programing.Gateway.Consumers.Progress.{Serves, Produces, never_stuck}
use linux_programing.Gateway.Consumers.Nodes.{never_faulted, sleeping_over_empty}

-- `storage_mgr` sleeps, and a node has been linked.
abbrev waiting : System
waiting = record {
  shared = record { nodes = 7 ∷ []; mutex = true; cnt_mutex = true; cnt = 0 };
  producer = linked;
  data_mgr = top;
  storage_mgr = sleeping;
}

-- It has taken the node.
abbrev taken : System
taken = record {
  shared = record { nodes = 7 ∷ []; mutex = false; cnt_mutex = true; cnt = 0 };
  producer = idle;
  data_mgr = top;
  storage_mgr = holding 7;
}

waiting_run : Reach waiting
unfolding producer_move consumer_move take_first
waiting_run =
    next
      (next
        (next (next (next start (serve_storage false refl)) (serve_storage false refl))
          (serve_storage false refl))
        (arrive 7 refl refl refl))
      (produce refl)

taken_run : Reach taken
unfolding producer_move consumer_move take_first
taken_run =
    next
      (next
        (next (next (next waiting_run (broadcast refl)) (produce refl)) (serve_storage false refl))
        (serve_storage false refl))
      (serve_storage false refl)

never_faulted_example : (taken.data_mgr ≢ faulted) × (taken.storage_mgr ≢ faulted)
never_faulted_example = never_faulted taken_run

sleeping_over_empty_example :
    (waiting.data_mgr ≡ sleeping → (waiting.shared.nodes ≡ []) ⊎ (waiting.producer ≡ linked))
    × (waiting.storage_mgr ≡ sleeping → (waiting.shared.nodes ≡ []) ⊎ (waiting.producer ≡ linked))
sleeping_over_empty_example = sleeping_over_empty waiting_run

never_stuck_example :
    ((taken.producer ≡ linked) ⊎ Produces taken.producer taken.shared)
    ⊎ (Serves taken.data_mgr taken.shared ⊎ Serves taken.storage_mgr taken.shared)
never_stuck_example = never_stuck taken_run (λ e. cc)
