-- ===== src/Startup/Examples.antt =====
-- The start of the process of bridge/src/main.rs, with the Matter backend, on files that exist.
use thatsmatter.Base.{
  ℕ, ◌≡◌, ◌⊎◌, refl, true, false, [], none, Result, ok, err, inl, inr, Result-cases,
}
use thatsmatter.Base.Text.{codes}
use thatsmatter.Catalog.Store
use thatsmatter.Catalog.Store.{CatalogStore, list}
use thatsmatter.Catalog.Load.{load_or_new}
use thatsmatter.Catalog.Examples.{RawFile, plain, all_good, no_files, saved, saved-IsWellFormed}
use thatsmatter.Catalog.Persist.{persist}
use thatsmatter.Startup.Restart.{Continues, boot-Continues}
use thatsmatter.Commissioning.Examples
use thatsmatter.Ipc.{rs_matter}
use thatsmatter.Pairing.Examples.{fixed}
use thatsmatter.RsMatter
use thatsmatter.RsMatter.{RsMatterBackend}
use thatsmatter.RsMatter.Backend.{rs_backend}
use thatsmatter.RsMatter.Threads.{about_to_start}
use thatsmatter.RsMatter.Start.{start, thread_steps}
use thatsmatter.RsMatter.Examples.{home_host, pace, answers}
use thatsmatter.Startup.{Config, v4, Machine, Bridge, rs_bridge, is_loopback, boot}
use thatsmatter.Startup.Synced.{IsSynced, boot-IsSynced}

abbrev machine : Machine ℕ
machine = record {
  create_data_dir = true;
  load = record { create_dir = true; read_config = true; read_exports = true };
  commissioning = Examples.working;
  draws = Examples.draws;
  discriminator = 3840;
  now = 100;
  random = 0;
  backend_dir = true;
  spawned = true;
  pace = pace;
  after = 0;
  host = home_host;
  answers = answers;
}

abbrev config : Config
config = record {
  listen = record { ip = v4 (record { a = 127; b = 0; c = 0; d = 1 }); port = 18465 };
  bridge_name = codes "ThatsMatter";
  matter_backend = rs_matter;
  allow_non_loopback = false;
  mdns_interface = none;
}

abbrev started : RsMatterBackend
started =
    (start home_host none (ok tt) true pace
      (about_to_start (RsMatter.new 0 fixed none Examples.drawn))).1.backend

abbrev bridge : Bridge ℕ RawFile
bridge = rs_bridge (record {
  catalog = record { store = Store.new (codes "ThatsMatter"); files = no_files };
  backend = ((rs_backend answers).set_exports [] started).1;
})

boot-IsSynced_example :
    ((false ≡ true) ⊎ (is_loopback config.listen.ip ≡ true))
    × ((store : CatalogStore) × (load_or_new plain machine.load no_files (codes "ThatsMatter")
          ≡ ok store)
        × IsSynced machine config store bridge)
unfolding boot load_or_new thatsmatter.Commissioning.load_or_generate start thread_steps
    RsMatter.new RsMatter.prepare thatsmatter.Lan.validate_for_start Store.list
    thatsmatter.Base.Map.values
boot-IsSynced_example =
    boot-IsSynced machine fixed plain Examples.plain config no_files Examples.no_file bridge refl

abbrev continued : Bridge ℕ RawFile
continued = rs_bridge (record {
  catalog = record { store = saved; files = (persist plain all_good saved no_files).1 };
  backend = ((rs_backend answers).set_exports (list saved) started).1;
})

boot-Continues_example : Continues machine saved continued
unfolding persist boot load_or_new thatsmatter.Base.Map.values
    thatsmatter.Commissioning.load_or_generate start thread_steps RsMatter.new RsMatter.prepare
    thatsmatter.Lan.validate_for_start thatsmatter.Base.Map.insert
boot-Continues_example =
    boot-Continues machine fixed plain Examples.plain all_good saved no_files config
      Examples.no_file continued saved-IsWellFormed refl refl refl
