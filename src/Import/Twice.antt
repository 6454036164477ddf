-- ===== src/Import/Twice.antt =====
-- An import over a tape that lies in the changer.
use vtladm.Catalog.{Catalog}
