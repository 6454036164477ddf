-- ===== src/Tags/Listed.antt =====
-- The commands `tag_add`, `tag_remove` and `tag_delete` of vtladm-rc/userspace/src/main.rs, and the
-- lists that `tag_list` shows afterwards.
use vtladm.Prelude.{
  ℕ, Text, ◌≡◌, refl, arith, true, false, ◌&&◌, ◌||◌, not, List, [], ◌∷◌, none, some, ◌==◌,
  if◌then◌else◌, text_eq, text_eq_sound, keep, inl, inr, Option-cases, Bool-cases, ==_sound,
  ==_refl, ◌∙◌,
}
use vtladm.Errors.{ok, ok-inj}
use vtladm.Catalog.{Catalog}
use vtladm.Libraries.Rows.{all-keep_gain}
use vtladm.Shelves.{is_in}
use vtladm.Tags.{
  Tag, TagTables, find_tag, add_tags_to_tape, tape_id_of, tag_add, remove_tags, tag_remove,
  row_of_other, other_tag, without_tag_id, tag_delete,
}
use vtladm.Tags.Tables.{
  has_tag, is_named, UniqueTags, refers, IsSound, is_in-tags_of, has_row-keep_tag, find_tag-has_tag,
}
use vtladm.Tags.Lists.{is_listed, is_tagged, same_tag, is_tagged-add_tags, is_tagged-remove_tags}

-- The list of a sound table, by the ids.
listed_by_id :
    (u : ℕ) (n : Text) (tables : TagTables)
    → IsSound tables
    → is_listed u n tables ≡ is_tagged u n tables
listed_by_id u n tables s = is_in-tags_of u n tables.tags tables.tape_tags s.unique

-- After tags were added to a tape, its list has them, and what it had; the lists of the other tapes
-- are as before, and each id and each name still belongs to one tag.
pub tag_add_lists :
    (lib_name tape : Text) (names : List Text) (db : Catalog) (tables : TagTables) (t u : ℕ)
    (n : Text) {after : TagTables}
    → IsSound tables
    → tape_id_of lib_name tape db ≡ ok t
    → tag_add lib_name tape names db tables ≡ ok after
    → IsSound after × (is_listed u n after ≡ is_listed u n tables || (t == u && is_in n names))
unfolding tag_add
tag_add_lists lib_name tape names db tables t u n {after} s found done =
    let e : add_tags_to_tape t names tables ≡ after = ok-inj (rw found at done) in
    let (sound, tagged) = is_tagged-add_tags t u n names tables s in
    rw (← e) (
      sound,
      listed_by_id u n (add_tags_to_tape t names tables) sound
          ∙ rw (listed_by_id u n tables s) tagged,
    )

-- After tags were removed from a tape, its list has none of them, and what else it had; the lists of
-- the other tapes are as before.
pub tag_remove_lists :
    (lib_name tape : Text) (names : List Text) (db : Catalog) (tables : TagTables) (t u : ℕ)
    (n : Text) {after : TagTables}
    → IsSound tables
    → tape_id_of lib_name tape db ≡ ok t
    → tag_remove lib_name tape names db tables ≡ ok after
    → IsSound after × (is_listed u n after ≡ is_listed u n tables && not (t == u && is_in n names))
unfolding tag_remove
tag_remove_lists lib_name tape names db tables t u n {after} s found done =
    let e : remove_tags t names tables ≡ after = ok-inj (rw found at done) in
    let (sound, tagged) = is_tagged-remove_tags t u n names tables s in
    rw (← e) (
      sound,
      listed_by_id u n (remove_tags t names tables) sound ∙ rw (listed_by_id u n tables s) tagged,
    )

keep_absent : (i : ℕ) (rs : List Tag) → has_tag i rs ≡ false → keep (other_tag i) rs ≡ rs
unfolding has_tag keep
keep_absent i [] h = refl
keep_absent i (r ∷ rs) h = ground (arith, h, keep_absent i rs)

has_tag-keep :
    (i j : ℕ) (rs : List Tag) → has_tag j (keep (other_tag i) rs) ≡ has_tag j rs && not (j == i)
unfolding has_tag keep
has_tag-keep i j [] = refl
has_tag-keep i j (r ∷ rs) = ground (arith, has_tag-keep i j rs)

unnamed-keep :
    (n : Text) (i : ℕ) (rs : List Tag)
    → is_named (find_tag n rs) ≡ false
    → is_named (find_tag n (keep (other_tag i) rs)) ≡ false
unfolding find_tag keep
unnamed-keep n i [] h = h
unnamed-keep n i (r ∷ rs) h = ground (arith, h, unnamed-keep n i rs)

keep-UniqueTags : (i : ℕ) (rs : List Tag) → UniqueTags rs → UniqueTags (keep (other_tag i) rs)
unfolding UniqueTags keep
keep-UniqueTags i [] u = tt
keep-UniqueTags i (r ∷ rs) u =
    ground (arith, has_tag-keep i r.id rs, unnamed-keep r.name i rs, keep-UniqueTags i rs u.2, u.0)

find_tag-keep :
    (name n : Text) (i : ℕ) (rs : List Tag)
    → UniqueTags rs
    → find_tag name rs ≡ some i
    → find_tag n (keep (other_tag i) rs) ≡ (if text_eq name n then none else find_tag n rs)
unfolding UniqueTags find_tag keep
find_tag-keep name n i [] u h = cc h
find_tag-keep name n i (r ∷ rs) u h = elim (Bool-cases (text_eq r.name name)) [
  | inl same ↦
      let e : r.id ≡ i = ground (arith, same, h) in
      let f : r.name ≡ name = text_eq_sound r.name name same in
      let gone : has_tag i rs ≡ false = rw e at u.0 in
      let here : (r.id == i) ≡ true = rw e (==_refl i) in
      let free : is_named (find_tag name rs) ≡ false = rw f at u.1 in
      elim (Bool-cases (text_eq name n)) [
        | inl equal ↦
            let none_left : is_named (find_tag n rs) ≡ false =
              rw (text_eq_sound name n equal) at free in
            rw (here, keep_absent i rs gone, equal) (ground (arith, none_left))
        | inr differ ↦ rw (here, keep_absent i rs gone, differ, f, differ) refl
      ]
  | inr other ↦
      let found : find_tag name rs ≡ some i = ground (arith, other, h) in
      let apart : (r.id == i) ≡ false = elim (Bool-cases (r.id == i)) [
        | inr differ ↦ differ
        | inl equal ↦
            let gone : has_tag i rs ≡ false = rw (==_sound r.id i equal) at u.0 in
            cc (gone, find_tag-has_tag name i rs found)
      ] in
      elim (Bool-cases (text_eq name n)) [
        | inl equal ↦
            let differ : text_eq r.name n ≡ false = rw (text_eq_sound name n equal) at other in
            ground (arith, apart, differ, equal, find_tag-keep name n i rs u.2 found)
        | inr unequal ↦ ground (arith, apart, unequal, find_tag-keep name n i rs u.2 found)
      ]
]

without_tag_id-IsSound :
    (i : ℕ) (tables : TagTables) → IsSound tables → IsSound (without_tag_id i tables)
unfolding without_tag_id
without_tag_id-IsSound i tables s = record {
  unique = keep-UniqueTags i tables.tags s.unique;
  referred =
      all-keep_gain (refers tables.tags) (refers (keep (other_tag i) tables.tags)) (row_of_other i)
        tables.tape_tags
        (λ x other here. ground (arith, other, here, has_tag-keep i x.tag_id tables.tags))
        s.referred;
}

is_tagged-without_tag_id :
    (name n : Text) (i u : ℕ) (tables : TagTables)
    → IsSound tables
    → find_tag name tables.tags ≡ some i
    → is_tagged u n (without_tag_id i tables) ≡ is_tagged u n tables && not (text_eq name n)
unfolding without_tag_id
is_tagged-without_tag_id name n i u tables s found =
    rw (find_tag-keep name n i tables.tags s.unique found)
      (elim (Option-cases (find_tag n tables.tags)) [
        | inl absent ↦ rw absent (ground arith)
        | inr (j, there) ↦ rw there (
            ground (
              arith,
              has_row-keep_tag i u j tables.tape_tags,
              same_tag name n i j tables.tags s.unique found there,
            ))
      ])

-- After a tag was deleted, no list has it, and every list has what else it had; each id and each name
-- still belongs to one tag, and no row of a tape names a tag that is gone.
pub tag_delete_lists :
    (name n : Text) (u : ℕ) (tables : TagTables) {after : TagTables}
    → IsSound tables
    → tag_delete name tables ≡ ok after
    → IsSound after × (is_listed u n after ≡ is_listed u n tables && not (text_eq name n))
unfolding tag_delete
tag_delete_lists name n u tables {after} s done = elim (Option-cases (find_tag name tables.tags)) [
  | inl missing ↦ cc (rw missing at done)
  | inr (i, found) ↦
      let e : without_tag_id i tables ≡ after = ok-inj (rw found at done) in
      let sound = without_tag_id-IsSound i tables s in
      rw (← e) (
        sound,
        listed_by_id u n (without_tag_id i tables) sound
            ∙ rw (listed_by_id u n tables s) (is_tagged-without_tag_id name n i u tables s found),
      )
]
