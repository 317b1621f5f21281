-- ===== src/Wal/Composition/Order.antt =====
-- wal.cpp: the frontiers of a log are in order when it opens.
use ll_exp.Prelude.{
  ℕ, ◌+◌, ◌≤◌, ◌<◌, ◌≡◌, refl, arith, Bool, true, false, not, Option, none, some, List, if_both,
}
use ll_exp.Wal.Types.{OpenStatus, WalRuntimeConfig}
use ll_exp.Wal.Core.{
  WalCore, u64_mod, try_publish, publish_checked, store_record, open_core, initialize,
  storage_layout, valid_runtime_config,
}
use ll_exp.Wal.Format.{WalConfig, valid_config}
use ll_exp.Wal.Disk.{PhysicalWalAdapter}
use ll_exp.Wal.Persistence.{PersistenceModule, open_persistence}
use ll_exp.Wal.Composition.{Wal, runtime_config, open_wal, after_core_open, after_persistence_open}

-- Nothing is consumed that is not durable, nothing durable that was not processed, nothing processed
-- that was not published.
pub record IsOrdered (w : Wal) : Type 0 where
  pub consumed : w.core.tail ≤ w.slider.own
  pub durable : w.slider.own ≤ w.slider.current
  pub processed : w.slider.current ≤ w.core.head

-- The core after a call: its tail is where it was, and its head moved by one at most.
pub record Grows (w w' : WalCore) : Type 0 where
  pub tail : w'.tail ≡ w.tail
  pub forward : w.head ≤ w'.head
  pub step : w'.head ≤ w.head + 1

Grows-self : (w : WalCore) → Grows w w
Grows-self w = record { tail = refl; forward = omega arith; step = omega arith }

pub publish-Grows :
    (w : WalCore) (payload : List ℕ) → w.head + 1 < u64_mod → Grows w (try_publish w payload).1
unfolding try_publish publish_checked store_record
publish-Grows w payload small = record {
  tail = ground arith;
  forward = ground (arith, small);
  step = ground (arith, small);
}

pub core-IsOrdered :
    (w : Wal) (core : WalCore)
    → IsOrdered w
    → Grows w.core core
    → IsOrdered (record w { core = core })
core-IsOrdered w core v g = record {
  consumed = omega (arith, v.consumed, g.tail);
  durable = v.durable;
  processed = omega (arith, v.processed, g.forward);
}

abbrev Starts : OpenStatus × WalCore → Type 0
Starts (status, core) = status ≡ OpenStatus.ok → (core.tail ≡ 0) × (core.head ≡ 0)

abbrev OrderedIfOpen : OpenStatus × Wal → Type 0
OrderedIfOpen (status, w) = status ≡ OpenStatus.ok → IsOrdered w

initialize_starts :
    (c : WalRuntimeConfig) (allocated : Bool) (layout : Option (ℕ × ℕ)) (w : WalCore)
    → (initialize c allocated layout w).0 ≡ OpenStatus.ok
    → ((initialize c allocated layout w).1.tail ≡ 0)
      × ((initialize c allocated layout w).1.head ≡ 0)
unfolding initialize
initialize_starts c allocated none w e = cc
initialize_starts c false (some (stride, size)) w e = cc
initialize_starts c true (some (stride, size)) w e = (refl, refl)

-- A core that opens is empty.
core_starts :
    (c : WalRuntimeConfig) (allocated : Bool) (w : WalCore)
    → (open_core c allocated w).0 ≡ OpenStatus.ok
    → ((open_core c allocated w).1.tail ≡ 0) × ((open_core c allocated w).1.head ≡ 0)
unfolding open_core
core_starts c allocated w =
    if_both Starts w.is_open (λ e. cc)
      (if_both Starts (not (valid_runtime_config c)) (λ e. cc)
        (initialize_starts c allocated (storage_layout c) w))

persistence-IsOrdered :
    (c : WalConfig) (core : WalCore) (w : Wal) (q : OpenStatus × PersistenceModule)
    → (core.tail ≡ 0) × (core.head ≡ 0)
    → (after_persistence_open c core w q).0 ≡ OpenStatus.ok
    → IsOrdered (after_persistence_open c core w q).1
persistence-IsOrdered c core w (OpenStatus.ok, p) start e = record {
  consumed = omega (arith, start.0);
  durable = omega arith;
  processed = omega arith;
}
persistence-IsOrdered c core w (OpenStatus.invalid_config, p) start e = cc
persistence-IsOrdered c core w (OpenStatus.allocation_failed, p) start e = cc
persistence-IsOrdered c core w (OpenStatus.io_error, p) start e = cc
persistence-IsOrdered c core w (OpenStatus.file_already_exists, p) start e = cc
persistence-IsOrdered c core w (OpenStatus.already_open, p) start e = cc

opened-IsOrdered :
    (adapter : Option PhysicalWalAdapter) (exists : Bool) (c : WalConfig) (w : Wal)
    (r : OpenStatus × WalCore)
    → Starts r
    → (after_core_open adapter exists c w r).0 ≡ OpenStatus.ok
    → IsOrdered (after_core_open adapter exists c w r).1
opened-IsOrdered adapter exists c w (OpenStatus.ok, core) start e =
    persistence-IsOrdered c core w (open_persistence adapter exists c w.slider.state) (start refl) e
opened-IsOrdered adapter exists c w (OpenStatus.invalid_config, core) start e = cc
opened-IsOrdered adapter exists c w (OpenStatus.allocation_failed, core) start e = cc
opened-IsOrdered adapter exists c w (OpenStatus.io_error, core) start e = cc
opened-IsOrdered adapter exists c w (OpenStatus.file_already_exists, core) start e = cc
opened-IsOrdered adapter exists c w (OpenStatus.already_open, core) start e = cc

-- A log that opens has its frontiers in order.
pub open_wal-IsOrdered :
    (allocated : Bool) (adapter : Option PhysicalWalAdapter) (exists : Bool) (c : WalConfig)
    (w : Wal)
    → (open_wal allocated adapter exists c w).0 ≡ OpenStatus.ok
    → IsOrdered (open_wal allocated adapter exists c w).1
unfolding open_wal
open_wal-IsOrdered allocated adapter exists c w =
    if_both OrderedIfOpen w.is_open (λ e. cc)
      (if_both OrderedIfOpen (not (valid_config c)) (λ e. cc)
        (opened-IsOrdered adapter exists c w (open_core (runtime_config c) allocated w.core)
          (core_starts (runtime_config c) allocated w.core)))
