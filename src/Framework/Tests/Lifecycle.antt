-- ===== src/Framework/Tests/Lifecycle.antt =====
-- The system of the goroutines of one instance, from a new manager on.
use myworktree.Prelude.{◌≡◌, refl, ap, some, lookup, insert}
use myworktree.Store.{State, zero_state}
use myworktree.Framework.Status.{is_terminal, running}
use myworktree.Framework.Kind.{get_kind}
use myworktree.Framework.Manager.Start.{start}
use myworktree.Framework.Manager.Start.Started.{start-Started}
use myworktree.Framework.Manager.Lifecycle.{
  System, Watcher, Steps, initial, watcher_of, moved, set_status, here, next, started, became_ready,
  polling,
}
use myworktree.Framework.Manager.Lifecycle.Sound.{Sound}
use myworktree.Framework.Manager.Lifecycle.Reached.{reached-Sound}
use myworktree.Framework.Manager.Lifecycle.Collected.{Gone, collected, stop_ends}
use myworktree.Framework.Manager.Config.{update_state}
use myworktree.Framework.Tests.Instances.{web, config, params, made, web_handle, started_web}

abbrev fresh : System State
fresh = initial zero_state

-- an instance has been started, and has told that it is ready
abbrev one_started : System State
one_started = record fresh {
  manager = (start config params (some "n1") "t1" fresh.manager).1;
  watchers = insert "n1" (watcher_of made web_handle) fresh.watchers;
}

abbrev one_ready : System State
one_ready = record one_started {
  manager = set_status config "t2" "n1" running "" one_started.manager;
  watchers = moved "n1" (watcher_of made web_handle) polling one_started.watchers;
}

path : Steps config (initial zero_state) one_ready
unfolding lookup insert
path =
    next (next here (started params "n1" "t1" made web_handle refl refl refl refl started_web))
      (became_ready "n1" "t2" (watcher_of made web_handle) refl refl)

reached-Sound_example : Sound one_ready
reached-Sound_example = reached-Sound config zero_state path

abbrev polled_watcher : Watcher
polled_watcher = record (watcher_of made web_handle) { phase = polling }

collected_example : (t : System State) × Steps config one_ready t × Gone config t "n1"
unfolding lookup insert moved get_kind is_terminal
collected_example =
    collected config zero_state one_ready "n1" polled_watcher web path refl refl refl (λ y. refl)

has_handle : lookup "n1" one_ready.manager.running ≡ some (record { handle = web_handle })
unfolding lookup insert set_status update_state
has_handle =
    ap (lookup "n1")
      (start-Started config params "n1" "t1" fresh.manager made web_handle started_web).running

stop_ends_example :
    (t : System State) × Steps config one_ready t × Gone config t "n1" × (t.stops ≡ one_ready.stops)
unfolding lookup insert set_status update_state
stop_ends_example =
    stop_ends config zero_state one_ready "n1" (record { handle = web_handle }) path has_handle
