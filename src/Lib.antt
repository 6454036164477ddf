-- ===== src/Lib.antt =====
-- vtladm: the catalog of a virtual tape library, and its agreement with the kernel's changer.
--
-- The program (vtladm-rc/userspace/src) keeps a catalog in SQLite: libraries, shelves, tapes, and
-- the slots and drives that hold tapes. Robot commands change the catalog in a transaction, then
-- send an ioctl to the kernel's changer, then align the two sides; the kernel may refuse, report
-- something else, or not be there. Periodic passes and `robot reconcile` compare the two sides and
-- copy the kernel's inventory into the catalog.
--
-- The files, and the code that they model:
--   Prelude: shared helpers. A String is the list of its UTF-8 bytes, a map is an association
--     list with one entry for each key. Prelude/Decimal, Strings: what the code uses of Rust's
--     standard library on strings and numbers.
--   Errors: `VtlError` of vtladm-rc/userspace/src/main.rs and `Result`.
--   Catalog, Catalog/Bays, Catalog/Tapes: the tables of `create_fresh_v2_schema` as lists of rows,
--     and the queries (`resolve_library_id`, `resolve_shelf_id`, `default_shelf_id`,
--     `tape_in_drive`). Catalog/Agreement: what it means that a row of `tapes` says where the tape
--     lies. An UPDATE of a row that is not there changes nothing, as in SQL.
--   Robot: the transactions of `load_tape`, `unload_tape`, `eject_tape`, `assign_one_tape_to_slot`
--     and `shelf_place_tape` of main.rs, from the catalog to a result and the catalog. Robot/Valid:
--     the invariant. Robot/Load to Robot/Shelf: one file for each operation.
--   Elements, Inventory: `MediumLocation`, the reading of the reply of GET_INVENTORY, and
--     `db_inventory` of vtladm-rc/userspace/src/robot_sync.rs.
--   Changer, Changer/World, Changer/Calls: the requests, the device, the state of
--     catalog and kernel together, and the calls `kernel_load` to `evacuate_shelved_tapes_from_kernel`
--     of robot_sync.rs. The device is a parameter with a state of its own, and may answer anything.
--   Drift, Pull, Align, Sync: `find_drifts`, `apply_kernel_to_db`, the alignment and the passes over
--     all libraries of vtladm-rc/userspace/src/reconcile.rs.
--   Media: `delete_tape_in_library` and `init_tape_in_library` of main.rs.
--   Display: `changer_inventory_display` of robot_sync.rs. Display/Order, Display/Rows, Display/Found,
--     Display/Shown and Display/Kernel: what stands in its rows.
--   Settings: the switches `robot_sync` and `auto_reconcile_pull`.
--   Geometry: the ids, indices and segments that the kernel is loaded with, of main.rs and
--     robot_sync.rs. Geometry/Spec: the text of `vtl_instances`, its parsing, and the form of plan B
--     with as many hosts as the kernel has.
--   Holders: the devices of vtladm-rc/userspace/src/scsi_tape_holders.rs and lio_hold.rs that must not
--     be in use. The commands and files that are read are a parameter.
--   Reload, Reload/Parts: `maybe_reload_kernel_vtl_after_db_change` of main.rs, with the buffer of
--     kernel_geom_ioctl.rs. Reload/Ends: the ways in which it ends. The ioctls, the scripts and the
--     rescan are a parameter.
--   Libraries, Libraries/Whole: `create_named_library`, `delete_named_library` and
--     `resolve_active_library_name` of main.rs, with the geometry change that follows.
--     Libraries/Rows to Libraries/Keeps: the transactions and the invariant.
--   Tapes, Tapes/Quota, Tapes/Auto: `create_tape`, `check_quota`, the batches and the automatic names of
--     main.rs. Tapes/Create, Tapes/Sound, Tapes/Batch, Tapes/Made: the catalog with a new tape.
--     Tapes/Fresh: the names.
--   Operands, Operands/Read: `parse_slot` and `parse_drive` of main.rs.
--   Tags: the tags of main.rs, with `batch_create_tapes`. Tags/Tables, Tags/Lists, Tags/Listed: the
--     tables, and the lists of tags.
--   Auth, Auth/Challenge: vtladm-rc/userspace/src/web_auth.rs: the file with the hash of the password,
--     the captchas and the sessions, each with its time. The hash, JSON and random numbers are those
--     of packages and a parameter. Auth/Sessions, Auth/Trace, Auth/Lasting, Auth/Kept: requests in any
--     order, and how long a session and a captcha last.
--   Names: `sanitize_lib_dir_component`, `validate_library_name`, `validate_tape_name` of main.rs.
--   Shelves: `create_shelf`, `delete_shelf_in_library`, `migrate_tapes_between_shelves` of main.rs.
--   Offline, Offline/Batch: `ensure_offline_library`, `create_offline_shelf`,
--     `move_tapes_to_offline_shelf`, `import_offline_tape_to_online_slot` and
--     `assign_tapes_to_slots_batch` of main.rs. The calls on files are a parameter, like the device:
--     a rename or a new directory may fail. Offline/Rows, Offline/Failure, Offline/Keeps and
--     Offline/Whole: the transactions, the failures, and the invariant.
--   Import: the transaction of `import_tape` of main.rs.
--   Handlers: the robot commands as a whole. Handlers/Outcome: what they answer.
--   Examples: catalogs, a device, and runs.
--
-- Numbers: ids, slots and drives are natural numbers; an element that the kernel reports may be
-- negative. Each loop of the code runs over a list or a range. Printing a number runs on fuel,
-- the number itself, which has at least as many steps as digits; `trim_start_matches` runs on the
-- number of bytes. The loops over a map of the code have no fixed order; here it is that of the
-- list, which is arbitrary. A time is a number of nanoseconds.
--
-- Not modelled: logging and printing; reading the configuration; the web server's routes and pages;
-- the patrol; the iSCSI export; the walk over the SCSI hosts in a rescan; the kernel module;
-- sizes of tapes as texts, which are read as floating-point numbers; snapshots and searches; the
-- migration of old databases.
pub mod Prelude
pub mod Errors
pub mod Catalog
pub mod Robot
pub mod Elements
pub mod Inventory
pub mod Drift
pub mod Pull
pub mod Examples
pub mod Settings
pub mod Strings
pub mod Holders
pub mod Reload
pub mod Libraries
pub mod Changer
pub mod Geometry
pub mod Align
pub mod Names
pub mod Shelves
pub mod Import
pub mod Handlers
pub mod Offline
pub mod Sync
pub mod Media
pub mod Display
pub mod Auth
pub mod Tapes
pub mod Tags
pub mod Operands
