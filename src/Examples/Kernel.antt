-- ===== src/Examples/Kernel.antt =====
-- The robot commands on the stocked catalog, beside a kernel that only counts its calls.
use vtladm.Prelude.{ℕ, true, [], Option, none, some, pos, suc}
use vtladm.Errors.{Result, ok, err}
use vtladm.Catalog.{Catalog}
use vtladm.Catalog.Tapes.{Tape}
use vtladm.Settings.{Settings}
use vtladm.Changer.{Device, done}
use vtladm.Changer.World.{World}
use vtladm.Handlers.{load_tape}
use vtladm.Examples.{stocked}

abbrev pub counting : Device ℕ
counting = record {
  load_tape = λ r k. (done tt, suc k);
  unload_tape = λ r k. (done tt, suc k);
  slot_place = λ r k. (done tt, suc k);
  move_medium = λ r k. (done tt, suc k);
  elem_remove = λ r k. (done tt, suc k);
  get_inventory = λ i k. (done (record { count = pos 0; truncated = pos 0; items = [] }), suc k);
}

abbrev pub all_on : Settings
all_on = record {
  env_robot_sync = none;
  conf_robot_sync = true;
  env_auto_reconcile_pull = none;
  conf_auto_reconcile_pull = true;
}

abbrev pub start : World ℕ
start = record { db = stocked; kernel = 0 }

abbrev loaded : Result (ℕ × Catalog) → Catalog
loaded (ok (t, db)) = db
loaded (err e) = stocked

abbrev row : Option Tape → Tape
row (some r) = r
row none = record {
  id = 0;
  library_id = 0;
  shelf_id = none;
  barcode = [];
  name = [];
  slot = none;
  capacity_bytes = 0;
  used_bytes = 0;
  image_path = [];
}

abbrev after_move : Result (ℕ × ℕ × Catalog) → Catalog
after_move (ok (t, n, db)) = db
after_move (err e) = stocked

abbrev after_change : Result Catalog → Catalog
after_change (ok db) = db
after_change (err e) = stocked
