-- ===== src/Tags/Tables.antt =====
-- The tables `tags` and `tape_tags` of vtladm-rc/userspace/src/main.rs: their keys, and what one
-- statement does to a row that is asked for.
use vtladm.Prelude.{
  ℕ, Text, ◌+◌, ◌≤◌, ◌≡◌, refl, arith, Bool, true, false, ◌&&◌, ◌||◌, not, List, [], ◌∷◌, ◌++◌,
  Option, none, some, ◌==◌, if◌then◌else◌, text_eq, text_eq_sound, text_eq_sym, keep, all, inl, inr,
  Bool-cases, ==_sound,
}
use vtladm.Libraries.{TapeTag}
use vtladm.Shelves.{is_in}
use vtladm.Tags.{
  Tag, TagTables, find_tag, next_tag, has_row, pair, insert_row, tags_of, other_row, row_of_other,
}

unfoldable pub has_tag : ℕ → List Tag → Bool
has_tag i [] = false
has_tag i (r ∷ rs) = r.id == i || has_tag i rs

abbrev pub is_named : Option ℕ → Bool
is_named none = false
is_named (some i) = true

-- The key of `tags`, and the constraint on its names.
unfoldable pub UniqueTags : List Tag → Type 0
unfolding has_tag find_tag
UniqueTags [] = Unit
UniqueTags (r ∷ rs) =
    (has_tag r.id rs ≡ false) × (is_named (find_tag r.name rs) ≡ false) × UniqueTags rs

abbrev pub refers : List Tag → TapeTag → Bool
refers tags row = has_tag row.tag_id tags

-- Every row of `tape_tags` has its tag.
pub record IsSound (tables : TagTables) : Type 0 where
  pub unique : UniqueTags tables.tags
  pub referred : all (refers tables.tags) tables.tape_tags ≡ true

-- Whether the tape has the tag of that id.
abbrev pub listed : Option ℕ → ℕ → List TapeTag → Bool
listed none t rows = false
listed (some i) t rows = has_row t i rows

not_in_tags_of :
    (t : ℕ) (name : Text) (tags : List Tag) (rows : List TapeTag)
    → is_named (find_tag name tags) ≡ false
    → is_in name (tags_of t tags rows) ≡ false
unfolding find_tag tags_of is_in
not_in_tags_of t name [] rows h = refl
not_in_tags_of t name (r ∷ rs) rows h = ground (arith, h, not_in_tags_of t name rs rows)

-- A name is in the list of a tape exactly when the row of its id is there.
pub is_in-tags_of :
    (t : ℕ) (name : Text) (tags : List Tag) (rows : List TapeTag)
    → UniqueTags tags
    → is_in name (tags_of t tags rows) ≡ listed (find_tag name tags) t rows
unfolding find_tag tags_of is_in UniqueTags
is_in-tags_of t name [] rows u = refl
is_in-tags_of t name (r ∷ rs) rows u = elim (Bool-cases (text_eq r.name name)) [
  | inl same ↦
      let e : r.name ≡ name = text_eq_sound r.name name same in
      let gone : is_named (find_tag name rs) ≡ false = rw e at u.1 in
      ground (arith, same, not_in_tags_of t name rs rows gone)
  | inr other ↦ ground (arith, other, is_in-tags_of t name rs rows u.2)
]

has_row-append :
    (t i u j : ℕ) (rows : List TapeTag)
    → has_row u j (rows ++ pair t i ∷ []) ≡ has_row u j rows || (t == u && i == j)
unfolding has_row
has_row-append t i u j [] = ground arith
has_row-append t i u j (r ∷ rs) = ground (arith, has_row-append t i u j rs)

pub has_row-insert_row :
    (t i u j : ℕ) (rows : List TapeTag)
    → has_row u j (insert_row t i rows) ≡ has_row u j rows || (t == u && i == j)
unfolding insert_row
has_row-insert_row t i u j rows = elim (Bool-cases (has_row t i rows)) [
  | inr new ↦ rw new (has_row-append t i u j rows)
  | inl there ↦ rw there (elim (Bool-cases (t == u && i == j)) [
    | inr other ↦ rw other (ground arith)
    | inl same ↦
        let e : t ≡ u = ==_sound t u (ground (arith, same)) in
        let f : i ≡ j = ==_sound i j (ground (arith, same)) in rw (← e, ← f) (ground (arith, there))
  ])
]

pub has_row-keep :
    (t i u j : ℕ) (rows : List TapeTag)
    → has_row u j (keep (other_row t i) rows) ≡ has_row u j rows && not (t == u && i == j)
unfolding has_row keep
has_row-keep t i u j [] = refl
has_row-keep t i u j (r ∷ rs) = ground (arith, has_row-keep t i u j rs)

pub has_row-keep_tag :
    (i u j : ℕ) (rows : List TapeTag)
    → has_row u j (keep (row_of_other i) rows) ≡ has_row u j rows && not (j == i)
unfolding has_row keep
has_row-keep_tag i u j [] = refl
has_row-keep_tag i u j (r ∷ rs) = ground (arith, has_row-keep_tag i u j rs)

-- A row of a tag that is not there is not there.
pub has_row-refers :
    (t i : ℕ) (tags : List Tag) (rows : List TapeTag)
    → all (refers tags) rows ≡ true
    → has_tag i tags ≡ false
    → has_row t i rows ≡ false
unfolding has_row all
has_row-refers t i tags [] h n = refl
has_row-refers t i tags (r ∷ rs) h n = elim (Bool-cases (r.tag_id == i)) [
  | inl same ↦
      let e : r.tag_id ≡ i = ==_sound r.tag_id i same in
      let gone : has_tag r.tag_id tags ≡ false = rw e n in ground (arith, h, gone)
  | inr other ↦ ground (arith, other, h, has_row-refers t i tags rs)
]

pub find_tag-append :
    (name : Text) (rs : List Tag) (new : Tag)
    → find_tag name (rs ++ new ∷ []) ≡ (
        if is_named (find_tag name rs)
        then find_tag name rs
        else if text_eq new.name name
        then some new.id
        else none)
unfolding find_tag
find_tag-append name [] new = refl
find_tag-append name (r ∷ rs) new = ground (arith, find_tag-append name rs new)

pub find_tag-has_tag :
    (name : Text) (i : ℕ) (rs : List Tag) → find_tag name rs ≡ some i → has_tag i rs ≡ true
unfolding find_tag has_tag
find_tag-has_tag name i [] h = cc h
find_tag-has_tag name i (r ∷ rs) h = ground (arith, h, find_tag-has_tag name i rs)

-- An id belongs to one name.
pub find_tag_inj :
    (a b : Text) (i : ℕ) (rs : List Tag)
    → UniqueTags rs
    → find_tag a rs ≡ some i
    → find_tag b rs ≡ some i
    → text_eq a b ≡ true
unfolding find_tag UniqueTags
find_tag_inj a b i [] u h k = cc h
find_tag_inj a b i (r ∷ rs) u h k = elim (Bool-cases (r.id == i)) [
  | inl same ↦
      let e : r.id ≡ i = ==_sound r.id i same in
      let gone : has_tag i rs ≡ false = rw e at u.0 in
      elim (Bool-cases (text_eq r.name a)) [
        | inr no_a ↦ ground (arith, no_a, h, gone, find_tag-has_tag a i rs)
        | inl is_a ↦ elim (Bool-cases (text_eq r.name b)) [
          | inr no_b ↦ ground (arith, no_b, k, gone, find_tag-has_tag b i rs)
          | inl is_b ↦ rw (← text_eq_sound r.name a is_a) is_b
        ]
      ]
  | inr other ↦
      let in_a : find_tag a rs ≡ some i = ground (arith, other, h) in
      let in_b : find_tag b rs ≡ some i = ground (arith, other, k) in
      find_tag_inj a b i rs u.2 in_a in_b
]

-- The id of a new row is above all others.
next_tag-above : (i : ℕ) (rs : List Tag) → has_tag i rs ≡ true → i + 1 ≤ next_tag rs
unfolding has_tag next_tag
next_tag-above i [] h = cc h
next_tag-above i (r ∷ rs) h = ground (arith, h, next_tag-above i rs)

pub next_tag-new : (rs : List Tag) → has_tag (next_tag rs) rs ≡ false
next_tag-new rs = elim (Bool-cases (has_tag (next_tag rs) rs)) [
  | inr free ↦ free
  | inl taken ↦ ground (arith, next_tag-above (next_tag rs) rs taken)
]

pub has_tag-append :
    (i : ℕ) (rs : List Tag) (new : Tag) → has_tag i (rs ++ new ∷ []) ≡ has_tag i rs || new.id == i
unfolding has_tag
has_tag-append i [] new = ground arith
has_tag-append i (r ∷ rs) new = ground (arith, has_tag-append i rs new)

pub append-UniqueTags :
    (rs : List Tag) (new : Tag)
    → has_tag new.id rs ≡ false
    → is_named (find_tag new.name rs) ≡ false
    → UniqueTags rs
    → UniqueTags (rs ++ new ∷ [])
unfolding UniqueTags has_tag find_tag
append-UniqueTags [] new h k u = (refl, refl, tt)
append-UniqueTags (r ∷ rs) new h k u = ground (
  arith,
  has_tag-append r.id rs new,
  find_tag-append r.name rs new,
  text_eq_sym r.name new.name,
  append-UniqueTags rs new,
  h,
  k,
  u,
)

pub all-refers-append :
    (tags : List Tag) (new : Tag) (rows : List TapeTag)
    → all (refers tags) rows ≡ true
    → all (refers (tags ++ new ∷ [])) rows ≡ true
unfolding all
all-refers-append tags new [] h = refl
all-refers-append tags new (r ∷ rs) h =
    ground (arith, h, has_tag-append r.tag_id tags new, all-refers-append tags new rs)

all-append_any :
    (q : TapeTag → Bool) (rows : List TapeTag) (new : TapeTag)
    → q new ≡ true
    → all q rows ≡ true
    → all q (rows ++ new ∷ []) ≡ true
unfolding all
all-append_any q [] new h k = rw h refl
all-append_any q (r ∷ rs) new h k = ground (arith, all-append_any q rs new h)

pub all-refers-insert_row :
    (t i : ℕ) (tags : List Tag) (rows : List TapeTag)
    → has_tag i tags ≡ true
    → all (refers tags) rows ≡ true
    → all (refers tags) (insert_row t i rows) ≡ true
unfolding insert_row
all-refers-insert_row t i tags rows there h = elim (Bool-cases (has_row t i rows)) [
  | inl already ↦ rw already h
  | inr new ↦ rw new (all-append_any (refers tags) rows (pair t i) there h)
]
