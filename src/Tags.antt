-- ===== src/Tags.antt =====
-- Tags: `add_tags_to_tape`, `tag_add`, `tag_remove`, `tag_list`, `tag_delete` and
-- `batch_create_tapes` of vtladm-rc/userspace/src/main.rs. Printing and logging are left out.
pub mod Tables
pub mod Lists
pub mod Listed
use vtladm.Prelude.{
  ℕ, Text, ◌+◌, Bool, true, false, ◌&&◌, ◌||◌, not, List, [], ◌∷◌, ◌++◌, Option, none, some, ◌==◌,
  ltb, zero, suc, if◌then◌else◌, text_eq, keep, ℤ, pos, negsuc,
}
use vtladm.Errors.{Result, ok, err, ◌>>=◌, ok_or, tape_not_found, tag_not_found}
use vtladm.Catalog.{Catalog, resolve_library_id}
use vtladm.Catalog.Tapes.{Tape, find_named}
use vtladm.Changer.World.{World}
use vtladm.Libraries.{TapeTag}
use vtladm.Holders.{sorted}
use vtladm.Tapes.{Machine, create_tape}
use vtladm.Tapes.Quota.{Quotas}
use vtladm.Tapes.Auto.{padded}

-- A row of `tags`.
pub record Tag : Type 0 where
  pub id : ℕ
  pub name : Text

pub record TagTables : Type 0 where
  pub tags : List Tag
  pub tape_tags : List TapeTag

-- `SELECT id FROM tags WHERE name = name`.
unfoldable pub find_tag : Text → List Tag → Option ℕ
find_tag name [] = none
find_tag name (r ∷ rs) = if text_eq r.name name then some r.id else find_tag name rs

-- The id of a new row: the key is an INTEGER PRIMARY KEY without AUTOINCREMENT, so that an id is
-- given again after the row with the largest one was deleted.
unfoldable pub next_tag : List Tag → ℕ
next_tag [] = 1
next_tag (r ∷ rs) = let rest = next_tag rs in if ltb r.id rest then rest else r.id + 1

unfoldable pub has_row : ℕ → ℕ → List TapeTag → Bool
has_row t i [] = false
has_row t i (r ∷ rs) = r.tape_id == t && r.tag_id == i || has_row t i rs

abbrev pub pair : ℕ → ℕ → TapeTag
pair t i = record { tape_id = t; tag_id = i }

-- `INSERT OR IGNORE INTO tape_tags`.
unfoldable pub insert_row : ℕ → ℕ → List TapeTag → List TapeTag
unfolding has_row
insert_row t i rs = if has_row t i rs then rs else rs ++ pair t i ∷ []

-- One round of `add_tags_to_tape`, for the tag that was found.
unfoldable pub with_tag : ℕ → Text → TagTables → Option ℕ → TagTables
unfolding insert_row next_tag
with_tag t name tables (some i) = record tables { tape_tags = insert_row t i tables.tape_tags }
with_tag t name tables none = record {
  tags = tables.tags ++ record { id = next_tag tables.tags; name = name } ∷ [];
  tape_tags = insert_row t (next_tag tables.tags) tables.tape_tags;
}

unfoldable pub add_tags_to_tape : ℕ → List Text → TagTables → TagTables
unfolding with_tag find_tag
add_tags_to_tape t [] tables = tables
add_tags_to_tape t (name ∷ names) tables =
    add_tags_to_tape t names (with_tag t name tables (find_tag name tables.tags))

-- The id of the tape of the current library.
unfoldable pub tape_id_of : Text → Text → Catalog → Result ℕ
unfolding resolve_library_id find_named
tape_id_of lib_name tape db = do
  lib ← resolve_library_id db lib_name
  r ← ok_or (find_named lib tape db.tapes) (tape_not_found tape)
  ok r.id

unfoldable pub tag_add : Text → Text → List Text → Catalog → TagTables → Result TagTables
unfolding tape_id_of add_tags_to_tape
tag_add lib_name tape names db tables = do
  t ← tape_id_of lib_name tape db
  ok (add_tags_to_tape t names tables)

abbrev pub other_row : ℕ → ℕ → TapeTag → Bool
other_row t i r = not (r.tape_id == t && r.tag_id == i)

-- One round of the loop of `tag_remove`: a tag that is not there is passed over.
unfoldable pub without_tag : ℕ → TagTables → Option ℕ → TagTables
unfolding keep
without_tag t tables none = tables
without_tag t tables (some i) = record tables { tape_tags = keep (other_row t i) tables.tape_tags }

unfoldable pub remove_tags : ℕ → List Text → TagTables → TagTables
unfolding without_tag find_tag
remove_tags t [] tables = tables
remove_tags t (name ∷ names) tables =
    remove_tags t names (without_tag t tables (find_tag name tables.tags))

unfoldable pub tag_remove : Text → Text → List Text → Catalog → TagTables → Result TagTables
unfolding tape_id_of remove_tags
tag_remove lib_name tape names db tables = do
  t ← tape_id_of lib_name tape db
  ok (remove_tags t names tables)

-- The names of the tags that are joined to the tape.
unfoldable pub tags_of : ℕ → List Tag → List TapeTag → List Text
unfolding has_row
tags_of t [] rows = []
tags_of t (r ∷ rs) rows =
    let rest = tags_of t rs rows in if has_row t r.id rows then r.name ∷ rest else rest

unfoldable pub names : List Tag → List Text
names [] = []
names (r ∷ rs) = r.name ∷ names rs

unfoldable pub tag_list : Text → Option Text → Catalog → TagTables → Result (List Text)
unfolding tape_id_of tags_of names sorted
tag_list lib_name (some tape) db tables = do
  t ← tape_id_of lib_name tape db
  ok (tags_of t tables.tags tables.tape_tags)
tag_list lib_name none db tables = ok (sorted (names tables.tags))

abbrev pub row_of_other : ℕ → TapeTag → Bool
row_of_other i r = not (r.tag_id == i)

abbrev pub other_tag : ℕ → Tag → Bool
other_tag i r = not (r.id == i)

-- The two statements of `tag_delete`.
unfoldable pub without_tag_id : ℕ → TagTables → TagTables
unfolding keep
without_tag_id i tables = record {
  tags = keep (other_tag i) tables.tags;
  tape_tags = keep (row_of_other i) tables.tape_tags;
}

unfoldable pub tag_delete : Text → TagTables → Result TagTables
unfolding find_tag without_tag_id
tag_delete name tables = do
  i ← ok_or (find_tag name tables.tags) (tag_not_found name)
  ok (without_tag_id i tables)

-- The catalog with its tags, the disk and the kernel.
pub record Tagged (K : Type 0) : Type 0 where
  pub world : World K
  pub tables : TagTables

abbrev pub tag_new :
    {K : Type 0} → List Text → TagTables → Result ℕ × World K → Result (Unit {0}) × Tagged K
tag_new tags tables (err e, w) = (err e, record { world = w; tables = tables })
tag_new tags tables (ok t, w) =
    (ok tt, record { world = w; tables = add_tags_to_tape t tags tables })

module _ {K : Type 0} (m : Machine K) (q : Quotas) (tape_dir lib_name : Text) (size : ℕ)
    (prefix : Text) (tags : List Text) where
  abbrev pub made_id : Text → Result (Unit {0}) × World K → Result ℕ × World K
  made_id name (err e, w) = (err e, w)
  made_id name (ok u, w) = (tape_id_of lib_name name w.db, w)

  -- `format!("{}_{:04}", prefix, i)`.
  abbrev pub batch_name : ℕ → Text
  batch_name i = prefix ++ 95 ∷ padded 4 i

  abbrev pub one_tape : ℕ → Tagged K → Result (Unit {0}) × Tagged K
  one_tape i s =
      tag_new tags s.tables (
        made_id (batch_name i) (create_tape m q tape_dir lib_name (batch_name i) size none s.world))

  abbrev pub go_on :
      (Tagged K → Result (Unit {0}) × Tagged K)
      → Result (Unit {0}) × Tagged K
      → Result (Unit {0}) × Tagged K
  go_on next (err e, s) = (err e, s)
  go_on next (ok u, s) = next s

  -- `n` rounds from the number `i` on.
  unfoldable pub create_numbered : ℕ → ℕ → Tagged K → Result (Unit {0}) × Tagged K
  unfolding create_tape tape_id_of add_tags_to_tape padded
  create_numbered i zero s = (ok tt, s)
  create_numbered i (suc n) s = go_on (create_numbered (i + 1) n) (one_tape i s)

  unfoldable pub batch_create_tapes : ℤ → Tagged K → Result (Unit {0}) × Tagged K
  unfolding create_numbered
  batch_create_tapes (pos n) s = create_numbered 0 n s
  batch_create_tapes (negsuc n) s = (ok tt, s)
