-- ===== src/Tags/Lists.antt =====
-- What tagging does to the lists of tags: `tag_add`, `tag_remove`, `tag_delete` and `tag_list` of
-- vtladm-rc/userspace/src/main.rs.
use vtladm.Prelude.{
  ℕ, Text, ◌≡◌, refl, arith, Bool, true, false, ◌&&◌, ◌||◌, not, List, [], ◌∷◌, ◌++◌, Option, none,
  some, ◌==◌, text_eq, text_eq_sound, inl, inr, Option-cases, Bool-cases, ==_sound, ==_refl, sym,
}
use vtladm.Libraries.Rows.{all-keep}
use vtladm.Shelves.{is_in}
use vtladm.Tags.{
  Tag, TagTables, find_tag, next_tag, with_tag, add_tags_to_tape, other_row, without_tag,
  remove_tags, tags_of,
}
use vtladm.Tags.Tables.{
  has_tag, UniqueTags, refers, IsSound, listed, has_row-insert_row, has_row-keep, has_row-refers,
  find_tag-append, find_tag-has_tag, find_tag_inj, next_tag-new, append-UniqueTags,
  all-refers-append, all-refers-insert_row, has_tag-append,
}

-- Whether `tag_list` of the tape names the tag.
abbrev pub is_listed : ℕ → Text → TagTables → Bool
is_listed t name tables = is_in name (tags_of t tables.tags tables.tape_tags)

-- The same by the id of the tag.
abbrev pub is_tagged : ℕ → Text → TagTables → Bool
is_tagged t name tables = listed (find_tag name tables.tags) t tables.tape_tags

-- The id that was found for `name` is found for a name exactly when that is `name`.
pub same_tag :
    (name n : Text) (i j : ℕ) (tags : List Tag)
    → UniqueTags tags
    → find_tag name tags ≡ some i
    → find_tag n tags ≡ some j
    → (i == j) ≡ text_eq name n
same_tag name n i j tags u h k = elim (Bool-cases (i == j)) [
  | inl same ↦
      let e : i ≡ j = ==_sound i j same in
      rw same (sym (find_tag_inj name n j tags u (rw e at h) k))
  | inr other ↦ elim (Bool-cases (text_eq name n)) [
    | inr differ ↦ rw (other, differ) refl
    | inl equal ↦
        let e : find_tag n tags ≡ some i = rw (text_eq_sound name n equal) at h in
        ground (arith, e, k, other)
  ]
]

with_tag-IsSound :
    (t : ℕ) (name : Text) (tables : TagTables)
    → IsSound tables
    → IsSound (with_tag t name tables (find_tag name tables.tags))
unfolding with_tag
with_tag-IsSound t name tables s = elim (Option-cases (find_tag name tables.tags)) [
  | inr (i, found) ↦ rw found (record {
    unique = s.unique;
    referred =
        all-refers-insert_row t i tables.tags tables.tape_tags
          (find_tag-has_tag name i tables.tags found) s.referred;
  })
  | inl missing ↦
      let i : ℕ = next_tag tables.tags in
      let new : Tag = record { id = i; name = name } in
      let here : has_tag i (tables.tags ++ new ∷ []) ≡ true =
        ground (arith, has_tag-append i tables.tags new, ==_refl i) in
      rw missing (record {
        unique =
            append-UniqueTags tables.tags new (next_tag-new tables.tags) (rw missing refl) s.unique;
        referred =
            all-refers-insert_row t i (tables.tags ++ new ∷ []) tables.tape_tags here
              (all-refers-append tables.tags new tables.tape_tags s.referred);
      })
]

-- A tag that is new is on the tape alone.
new_tag_tagged :
    (t u : ℕ) (name n : Text) (tables : TagTables)
    → IsSound tables
    → find_tag name tables.tags ≡ none
    → is_tagged u n (with_tag t name tables none)
      ≡ is_tagged u n tables || (t == u && text_eq name n)
unfolding with_tag
new_tag_tagged t u name n tables s missing =
    let i : ℕ = next_tag tables.tags in
    let new : Tag = record { id = i; name = name } in
    let unused : has_tag i tables.tags ≡ false = next_tag-new tables.tags in
    rw (find_tag-append n tables.tags new) (elim (Option-cases (find_tag n tables.tags)) [
      | inr (j, there) ↦ elim (Bool-cases (text_eq name n)) [
        | inr differ ↦
            rw (there, differ)
              (ground (
                arith,
                has_row-insert_row t i u j tables.tape_tags,
                unused,
                find_tag-has_tag n j tables.tags there,
              ))
        | inl equal ↦
            let e : find_tag n tables.tags ≡ none = rw (text_eq_sound name n equal) at missing in
            cc (e, there)
      ]
      | inl absent ↦ elim (Bool-cases (text_eq name n)) [
        | inr differ ↦ rw (absent, differ) (ground arith)
        | inl equal ↦
            rw (absent, equal)
              (ground (
                arith,
                has_row-insert_row t i u i tables.tape_tags,
                has_row-refers u i tables.tags tables.tape_tags s.referred unused,
                ==_refl i,
              ))
      ]
    ])

-- One tag is added.
is_tagged-with_tag :
    (t u : ℕ) (name n : Text) (tables : TagTables)
    → IsSound tables
    → is_tagged u n (with_tag t name tables (find_tag name tables.tags))
      ≡ is_tagged u n tables || (t == u && text_eq name n)
unfolding with_tag
is_tagged-with_tag t u name n tables s = elim (Option-cases (find_tag name tables.tags)) [
  | inr (i, found) ↦ rw found (elim (Option-cases (find_tag n tables.tags)) [
    | inr (j, there) ↦ rw there (
        ground (
          arith,
          has_row-insert_row t i u j tables.tape_tags,
          same_tag name n i j tables.tags s.unique found there,
        ))
    | inl absent ↦ elim (Bool-cases (text_eq name n)) [
      | inr differ ↦ rw (absent, differ) (ground arith)
      | inl equal ↦
          let e : find_tag n tables.tags ≡ some i = rw (text_eq_sound name n equal) at found in
          cc (e, absent)
    ]
  ])
  | inl missing ↦ rw missing (new_tag_tagged t u name n tables s missing)
]

-- Tagging a tape with names adds those, and those only, to its list: the lists of other tapes stay.
pub is_tagged-add_tags :
    (t u : ℕ) (n : Text) (names : List Text) (tables : TagTables)
    → IsSound tables
    → IsSound (add_tags_to_tape t names tables)
      × (is_tagged u n (add_tags_to_tape t names tables)
          ≡ is_tagged u n tables || (t == u && is_in n names))
unfolding add_tags_to_tape is_in
is_tagged-add_tags t u n [] tables s = (s, ground arith)
is_tagged-add_tags t u n (name ∷ names) tables s =
    let next : TagTables = with_tag t name tables (find_tag name tables.tags) in
    let (sound, rest) = is_tagged-add_tags t u n names next (with_tag-IsSound t name tables s) in
    (sound, ground (arith, rest, is_tagged-with_tag t u name n tables s))

without_tag-IsSound :
    (t : ℕ) (o : Option ℕ) (tables : TagTables) → IsSound tables → IsSound (without_tag t tables o)
unfolding without_tag
without_tag-IsSound t none tables s = s
without_tag-IsSound t (some i) tables s = record {
  unique = s.unique;
  referred = all-keep (refers tables.tags) (other_row t i) tables.tape_tags s.referred;
}

is_tagged-without_tag :
    (t u : ℕ) (name n : Text) (tables : TagTables)
    → IsSound tables
    → is_tagged u n (without_tag t tables (find_tag name tables.tags))
      ≡ is_tagged u n tables && not (t == u && text_eq name n)
unfolding without_tag
is_tagged-without_tag t u name n tables s = elim (Option-cases (find_tag n tables.tags)) [
  | inl absent ↦ elim (Option-cases (find_tag name tables.tags)) [
    | inl missing ↦ rw (missing, absent) refl
    | inr (i, found) ↦ rw (found, absent) refl
  ]
  | inr (j, there) ↦ elim (Option-cases (find_tag name tables.tags)) [
    | inr (i, found) ↦
        rw (found, there)
          (ground (
            arith,
            has_row-keep t i u j tables.tape_tags,
            same_tag name n i j tables.tags s.unique found there,
          ))
    | inl missing ↦
        rw (missing, there)
          (elim (Bool-cases (text_eq name n)) [
            | inr differ ↦ rw differ (ground arith)
            | inl equal ↦
                let e : find_tag n tables.tags ≡ none =
                  rw (text_eq_sound name n equal) at missing in
                cc (e, there)
          ])
  ]
]

pub is_tagged-remove_tags :
    (t u : ℕ) (n : Text) (names : List Text) (tables : TagTables)
    → IsSound tables
    → IsSound (remove_tags t names tables)
      × (is_tagged u n (remove_tags t names tables)
          ≡ is_tagged u n tables && not (t == u && is_in n names))
unfolding remove_tags is_in
is_tagged-remove_tags t u n [] tables s = (s, ground arith)
is_tagged-remove_tags t u n (name ∷ names) tables s =
    let next : TagTables = without_tag t tables (find_tag name tables.tags) in
    let (sound, rest) =
      is_tagged-remove_tags t u n names next
        (without_tag-IsSound t (find_tag name tables.tags) tables s) in
    (sound, ground (arith, rest, is_tagged-without_tag t u name n tables s))
